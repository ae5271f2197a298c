-- ===== src/Common/Dict.antt =====
-- Python's `dict` in insertion order, as an association list.
use mathlib.Core.Path.{◌≡◌, refl}
use mathlib.Core.Logic.{◌≢◌, inl, inr}
use mathlib.Core.Bool.{Bool}
use mathlib.Core.Option.{Option, none, some}
use mathlib.Core.List.{List, [], ◌∷◌}
use Prim.{Unit, tt}
use ktn_enclosure_manager.Common.Lists.{keep}
use native.Mathlib.Omega.{arith}
use ktn_enclosure_manager.Common.Eq.{Equality, ◌==◌}
use ktn_enclosure_manager.Common.Tests.{if◌then◌else◌, is_some, Bool-cases}

abbrev pub Dict {ℓ κ} : Type ℓ → Type κ → Type (ℓ ⊔ κ)
Dict K V = List (K × V)

module _ {ℓ κ} {K : Type ℓ} {V : Type κ} ⦃e : Equality K⦄ where
  -- `d.get(k)`
  unfoldable pub get : K → Dict K V → Option V
  get k [] = none
  get k ((j, v) ∷ d) = if j == k then some v else get k d

  -- `d[k] = v`: an old key keeps its place
  unfoldable pub put : K → V → Dict K V → Dict K V
  put k v [] = (k, v) ∷ []
  put k v ((j, w) ∷ d) = if j == k then (j, v) ∷ d else (j, w) ∷ put k v d

  -- `d.pop(k, None)`
  unfoldable pub pop : K → Dict K V → Dict K V
  pop k [] = []
  pop k ((j, v) ∷ d) = let rest = pop k d in if j == k then rest else (j, v) ∷ rest

  -- `k in d`
  abbrev pub has : K → Dict K V → Bool
  has k d = is_some (get k d)

  pub get-put :
      (k j : K) (v : V) (d : Dict K V) → get j (put k v d) ≡ (if k == j then some v else get j d)
  unfolding get put
  get-put k j v [] = refl
  get-put k j v ((i, w) ∷ d) =
      ground (arith, e.decides k j, e.decides i k, e.decides i j, get-put k j v d)

  pub get-pop : (k j : K) (d : Dict K V) → get j (pop k d) ≡ (if k == j then none else get j d)
  unfolding get pop
  get-pop k j [] = ground arith
  get-pop k j ((i, w) ∷ d) =
      ground (arith, e.decides k j, e.decides i k, e.decides i j, get-pop k j d)

  pub get-put_self : (k : K) (v : V) (d : Dict K V) → get k (put k v d) ≡ some v
  get-put_self k v d = ground (arith, get-put k k v d, e.decides k k)

  pub get-put_ne : (k j : K) (v : V) (d : Dict K V) → k ≢ j → get j (put k v d) ≡ get j d
  get-put_ne k j v d h = ground (arith, get-put k j v d, e.decides k j)

  pub get-pop_self : (k : K) (d : Dict K V) → get k (pop k d) ≡ none
  get-pop_self k d = ground (arith, get-pop k k d, e.decides k k)

  pub get-pop_ne : (k j : K) (d : Dict K V) → k ≢ j → get j (pop k d) ≡ get j d
  get-pop_ne k j d h = ground (arith, get-pop k j d, e.decides k j)

  -- No key stands twice, as in every `dict`.
  unfoldable pub Once : Dict K V → Type (ℓ ⊔ κ)
  unfolding get
  Once [] = Unit
  Once ((k, v) ∷ d) = (get k d ≡ none) × Once d

  pub put-Once : (k : K) (v : V) (d : Dict K V) → Once d → Once (put k v d)
  unfolding Once get put
  put-Once k v [] h = (refl, tt)
  put-Once k v ((j, w) ∷ d) h = elim (Bool-cases (j == k)) [
    | inl y ↦ rw y (h.0, h.1)
    | inr n ↦
        rw n (ground (arith, get-put k j v d, e.decides j k, e.decides k j), put-Once k v d h.1)
  ]

  pub pop-Once : (k : K) (d : Dict K V) → Once d → Once (pop k d)
  unfolding Once get pop
  pop-Once k [] h = tt
  pop-Once k ((j, w) ∷ d) h = elim (Bool-cases (j == k)) [
    | inl y ↦ rw y (pop-Once k d h.1)
    | inr n ↦ rw n (ground (arith, get-pop k j d, e.decides j k, e.decides k j), pop-Once k d h.1)
  ]

  get-keep-none :
      (k : K) (p : K × V → Bool) (d : Dict K V) → get k d ≡ none → get k (keep p d) ≡ none
  unfolding get
  get-keep-none k p [] h = refl
  get-keep-none k p ((j, w) ∷ d) h = ground (arith, get-keep-none k p d)

  pub keep-Once : (p : K × V → Bool) (d : Dict K V) → Once d → Once (keep p d)
  unfolding Once
  keep-Once p [] h = tt
  keep-Once p ((j, w) ∷ d) h = elim (Bool-cases (p (j, w))) [
    | inl y ↦ rw y (get-keep-none j p d h.0, keep-Once p d h.1)
    | inr n ↦ rw n (keep-Once p d h.1)
  ]

  pub get-keep :
      (k : K) (p : K × V → Bool) (d : Dict K V)
      → Once d
      → get k (keep p d)
        ≡ elim (get k d) [ none ↦ none | some v ↦ if p (k, v) then some v else none ]
  unfolding Once get
  get-keep k p [] h = refl
  get-keep k p ((j, w) ∷ d) h =
      ground (arith, get-keep k p d h.1, get-keep-none j p d h.0, e.decides j k)

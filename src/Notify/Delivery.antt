-- ===== src/Notify/Delivery.antt =====
-- What one evaluation does to each bay.
use ktn_enclosure_manager.Common.{
  ℕ, ◌+◌, ◌≡◌, refl, ◌∙◌, Bool, false, ◌||◌, Option, List, [], ◌∷◌, ◌++◌, any, ◌==◌, list_eq,
  nat_eq, pair_eq, int_eq, arith, Bool-cases, inl, inr,
}
use ktn_enclosure_manager.Common.Dict.{get, get-put, get-pop}
use ktn_enclosure_manager.Common.Text.{Text}
use ktn_enclosure_manager.Bays.Model.{health_value}
use ktn_enclosure_manager.Notify.Notifier.{
  BayKey, Bay, key_of, Response, delivered, Config, Verdict, steady, silent, cooling, attempt,
  judge, Pending, Scan, act, scan_bay, scan, conclude, conclude_all,
}

abbrev pub names : BayKey → List Bay → Bool
names k = any (λ (b : Bay). key_of b == k)

abbrev pub pending_names : BayKey → List Pending → Bool
pending_names k = any (λ (p : Pending). p.key == k)

-- Two states of the dictionaries agree about a bay.
pub record SameAt (k : BayKey) (s t : Scan) : Type 0 where
  pub last : get k t.last ≡ get k s.last
  pub retry : get k t.retry_at ≡ get k s.retry_at

pub SameAt-refl : (k : BayKey) (s : Scan) → SameAt k s s
SameAt-refl k s = record { last = refl; retry = refl }

pub SameAt-trans : (k : BayKey) (r s t : Scan) → SameAt k r s → SameAt k s t → SameAt k r t
SameAt-trans k r s t f g = record { last = g.last ∙ f.last; retry = g.retry ∙ f.retry }

pub act_elsewhere :
    (v : Verdict) (k : BayKey) (b : Bay) (previous : Option Text) (s : Scan)
    → (key_of b == k) ≡ false
    → SameAt k s (act v b previous s).0 × (pending_names k (act v b previous s).1 ≡ false)
unfolding act
act_elsewhere steady k b previous s ne =
    (record { last = refl; retry = rw (get-pop (key_of b) k s.retry_at, ne) refl }, refl)
act_elsewhere silent k b previous s ne = (
  record {
    last = rw (get-put (key_of b) k (health_value b.health) s.last, ne) refl;
    retry = rw (get-pop (key_of b) k s.retry_at, ne) refl;
  },
  refl,
)
act_elsewhere cooling k b previous s ne = (SameAt-refl k s, refl)
act_elsewhere attempt k b previous s ne = (SameAt-refl k s, rw ne refl)

any-append {ℓ} :
    {A : Type ℓ} (p : A → Bool) (xs ys : List A) → any p (xs ++ ys) ≡ (any p xs || any p ys)
any-append p [] ys = refl
any-append p (x ∷ xs) ys = ground (arith, any-append p xs ys)

pub scan_elsewhere :
    (c : Config) (now : ℕ) (k : BayKey) (bs : List Bay) (s : Scan)
    → names k bs ≡ false
    → SameAt k s (scan c now bs s).0 × (pending_names k (scan c now bs s).1 ≡ false)
unfolding scan scan_bay
scan_elsewhere c now k [] s h = (SameAt-refl k s, refl)
scan_elsewhere c now k (b ∷ bs) s h =
    let v : Verdict = judge c now (get (key_of b) s.last) (get (key_of b) s.retry_at) b.health in
    let here = act_elsewhere v k b (get (key_of b) s.last) s (ground arith) in
    let rest = scan_elsewhere c now k bs (act v b (get (key_of b) s.last) s).0 (ground arith) in
    (
      SameAt-trans k _ _ _ here.0 rest.0,
      any-append _ (act v b (get (key_of b) s.last) s).1 _ ∙ ground (arith, here.1, rest.1),
    )

module _ (c : Config) (now : ℕ) (post : Bay → Option Text → Response) where
  pub conclude_elsewhere :
      (k : BayKey) (p : Pending) (s : Scan)
      → (p.key == k) ≡ false
      → SameAt k s (conclude c now post p s)
  unfolding conclude
  conclude_elsewhere k p s ne = elim (Bool-cases (delivered (post p.bay p.previous))) [
    | inl y ↦ record {
      last = rw (y) (get-put p.key k p.value s.last ∙ rw ne refl);
      retry = rw (y) (get-pop p.key k s.retry_at ∙ rw ne refl);
    }
    | inr n ↦ record {
      last = rw (n) refl;
      retry = rw (n) (get-put p.key k (now + c.retry_seconds) s.retry_at ∙ rw ne refl);
    }
  ]

  pub conclude_all_elsewhere :
      (k : BayKey) (ps : List Pending) (s : Scan)
      → pending_names k ps ≡ false
      → SameAt k s (conclude_all c now post ps s)
  unfolding conclude_all
  conclude_all_elsewhere k [] s h = SameAt-refl k s
  conclude_all_elsewhere k (p ∷ ps) s h =
      SameAt-trans k _ _ _ (conclude_elsewhere k p s (ground arith))
        (conclude_all_elsewhere k ps (conclude c now post p s) (ground arith))

  pub conclude_all-append :
      (ps qs : List Pending) (s : Scan)
      → conclude_all c now post (ps ++ qs) s
        ≡ conclude_all c now post qs (conclude_all c now post ps s)
  unfolding conclude_all
  conclude_all-append [] qs s = refl
  conclude_all-append (p ∷ ps) qs s = conclude_all-append ps qs (conclude c now post p s)

  conclude_alike :
      (k : BayKey) (p : Pending) (s t : Scan)
      → SameAt k s t
      → SameAt k (conclude c now post p s) (conclude c now post p t)
  unfolding conclude
  conclude_alike k p s t e = elim (Bool-cases (delivered (post p.bay p.previous))) [
    | inl y ↦ record {
      last =
          rw (y)
            (get-put p.key k p.value t.last ∙ rw (e.last, get-put p.key k p.value s.last) refl);
      retry = rw (y) (get-pop p.key k t.retry_at ∙ rw (e.retry, get-pop p.key k s.retry_at) refl);
    }
    | inr n ↦ record {
      last = rw (n) e.last;
      retry = rw (n) (
          get-put p.key k (now + c.retry_seconds) t.retry_at
          ∙ rw (e.retry, get-put p.key k (now + c.retry_seconds) s.retry_at) refl);
    }
  ]

  pub conclude_all_alike :
      (k : BayKey) (ps : List Pending) (s t : Scan)
      → SameAt k s t
      → SameAt k (conclude_all c now post ps s) (conclude_all c now post ps t)
  unfolding conclude_all
  conclude_all_alike k [] s t e = e
  conclude_all_alike k (p ∷ ps) s t e = conclude_all_alike k ps _ _ (conclude_alike k p s t e)

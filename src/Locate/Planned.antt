-- ===== src/Locate/Planned.antt =====
-- What the writer's plan addresses, whatever its caches have seen before.
use ktn_enclosure_manager.Common.{
  ℕ, ◌≡◌, refl, sym, ap, subst, ◌∙◌, Option, none, some, List, get_elem?, ◌==◌, ==→≡, list_eq,
  nat_eq, Bool-cases, Option-cases, inl, inr,
}
use ktn_enclosure_manager.Common.Dict.{Dict, get, put, get-put, get-put_self}
use ktn_enclosure_manager.Common.Text.{Text}
use ktn_enclosure_manager.Errors.{Exception, Outcome, ok, raise, Outcome-cases}
use ktn_enclosure_manager.Locate.Aes.{AesBlock, array_slot_type_index, TypeDescriptor}
use ktn_enclosure_manager.Locate.SlotMap.{build_slot_map}
use ktn_enclosure_manager.Locate.Addressing.{Addressed, slot_map_exact}
use ktn_enclosure_manager.Locate.Plan.{
  Ref, Pages, Plans, is_absent, is_addressable, array_type_index, slot_element_map, element_in,
  element_index_for, plan,
}

-- The blocks of an additional element status page that was read for an enclosure with the id.
abbrev pub IsGiven : {W : Type 0} → Pages W → Text → List AesBlock → Type 0
IsGiven {W} pages id blocks =
    (ref : Ref) × (w : W) × (ref.logical_id ≡ id)
    × ((pages.element_status w ref.sg_device).0 ≡ some blocks)

-- The type index, with its count of elements, that a configuration page read for an enclosure with the
-- id gives to the drive bays.
abbrev pub IsTyped : {W : Type 0} → Pages W → Text → ℕ × ℕ → Type 0
IsTyped {W} pages id t =
    (ref : Ref) × (w : W) × (ds : List TypeDescriptor) × (d : TypeDescriptor) × (ref.logical_id
      ≡ id)
    × ((pages.configuration w ref.sg_device).0 ≡ some ds)
    × (array_slot_type_index ds ≡ some t.0)
    × (get_elem? ds t.0 ≡ some d)
    × (d.count ≡ t.1)

-- Every cached type index stands on a configuration page of its shelf, and every cached map was built
-- from an element status page of its shelf, for the cached type index and count.
pub record IsSound {W : Type 0} (pages : Pages W) (p : Plans) : Type 0 where
  pub typed : (id : Text) (t : ℕ × ℕ) → get id p.type_index ≡ some t → IsTyped pages id t
  pub built :
      (id : Text) (m : Dict ℕ (Option ℕ))
      → get id p.slot_to_element ≡ some m
      → (t : ℕ × ℕ) × (blocks : List AesBlock) × (get id p.type_index ≡ some t)
        × IsGiven pages id blocks
        × (m ≡ build_slot_map blocks t.0 t.1)

-- How a look-up ends: with a value that has `Q` of the caches that it leaves, or an exception;
-- in both cases the caches are sound.
data Ends {W : Type 0} (pages : Pages W) {A : Type 0} (Q : A → Plans → Type 0)
    : Outcome A → Plans → Type 0 where
  found : (a : A) (p : Plans) → IsSound pages p → Q a p → Ends pages Q (ok a) p
  refused : (e : Exception) (p : Plans) → IsSound pages p → Ends pages Q (raise e) p

Ends-IsSound :
    {W : Type 0} (pages : Pages W) {A : Type 0} (Q : A → Plans → Type 0) (o : Outcome A) (p : Plans)
    → Ends pages Q o p
    → IsSound pages p
Ends-IsSound pages Q _ _ (found a p s q) = s
Ends-IsSound pages Q _ _ (refused e p s) = s

Ends-found :
    {W : Type 0} (pages : Pages W) {A : Type 0} (Q : A → Plans → Type 0) (o : Outcome A) (p : Plans)
    (a : A)
    → Ends pages Q o p
    → o ≡ ok a
    → Q a p
Ends-found pages Q _ _ a (found b p s q) h = subst (λ x. Q x p) (cc h) q
Ends-found pages Q _ _ a (refused e p s) h = absurd (cc h)

element_in-Addressed :
    (blocks : List AesBlock) (ti n slot i : ℕ)
    → element_in (build_slot_map blocks ti n) slot ≡ ok i
    → Addressed blocks ti n slot i
unfolding element_in
element_in-Addressed blocks ti n slot i h =
    elim (Option-cases (get slot (build_slot_map blocks ti n))) [
      | inl none_here ↦ absurd (cc (rw (none_here, element_in) at h))
      | inr (none, refusal) ↦ absurd (cc (rw (refusal, element_in) at h))
      | inr (some j, held) ↦
          let same : j ≡ i = cc (rw (held, element_in) at h) in
          (slot_map_exact blocks ti n slot i).0 (held ∙ ap (λ x. some (some x)) same)
    ]

module _ {W : Type 0} (pages : Pages W) where
  -- A type index that is learnt is one that the shelf had none of.
  learn-IsSound :
      (id : Text) (t : ℕ × ℕ) (p : Plans)
      → get id p.type_index ≡ none
      → IsTyped pages id t
      → IsSound pages p
      → IsSound pages (record p { type_index = put id t p.type_index })
  learn-IsSound id t p fresh typed s = record {
    typed = λ j u h. elim (Bool-cases (id == j)) [
      | inl y ↦
          let at : some t ≡ some u = sym (get-put id j t p.type_index ∙ rw y refl) ∙ h in
          subst (λ x. IsTyped pages x u) (==→≡ id j y) (subst (IsTyped pages id) (cc at) typed)
      | inr n ↦ s.typed j u (sym (get-put id j t p.type_index ∙ rw n refl) ∙ h)
    ];
    built = λ j m h.
        let (t', blocks, known, given, made) = s.built j m h in
        elim (Bool-cases (id == j)) [
          | inl y ↦ absurd (cc (fresh, known, ==→≡ id j y))
          | inr n ↦ (t', blocks, get-put id j t p.type_index ∙ rw n known, given, made)
        ];
  }

  map-IsSound :
      (id : Text) (t : ℕ × ℕ) (blocks : List AesBlock) (p : Plans)
      → get id p.type_index ≡ some t
      → IsGiven pages id blocks
      → IsSound pages p
      → IsSound pages
          (record p { slot_to_element = put id (build_slot_map blocks t.0 t.1) p.slot_to_element })
  map-IsSound id t blocks p known given s = record {
    typed = s.typed;
    built = λ j m h. elim (Bool-cases (id == j)) [
      | inl y ↦
          let at : some (build_slot_map blocks t.0 t.1) ≡ some m =
            sym (get-put id j (build_slot_map blocks t.0 t.1) p.slot_to_element ∙ rw y refl) ∙ h in
          (
            t,
            blocks,
            ap (λ k. get k p.type_index) (sym (==→≡ id j y)) ∙ known,
            subst (λ x. IsGiven pages x blocks) (==→≡ id j y) given,
            cc at,
          )
      | inr n ↦
          s.built j m
            (sym (get-put id j (build_slot_map blocks t.0 t.1) p.slot_to_element ∙ rw n refl) ∙ h)
    ];
  }

  abbrev Knows : Ref → ℕ × ℕ → Plans → Type 0
  Knows ref t p = get ref.logical_id p.type_index ≡ some t

  type_index_ends :
      (ref : Ref) (p : Plans) (w : W)
      → IsSound pages p
      → Ends pages
          (Knows ref)
          (array_type_index pages ref p w).0
          (array_type_index pages ref p w).1.0
  unfolding array_type_index
  type_index_ends ref p w s = elim (Option-cases (get ref.logical_id p.type_index)) [
    | inr (t, known) ↦ rw (known, array_type_index) (found t p s known)
    | inl fresh ↦ elim (Bool-cases (is_absent ref.sg_device)) [
      | inl y ↦ rw (fresh, array_type_index) rw y (refused _ p s)
      | inr n ↦ elim (Option-cases (pages.configuration w ref.sg_device).0) [
        | inl bad ↦ rw (fresh, array_type_index) rw n rw bad (refused _ p s)
        | inr (ds, page) ↦ elim (Option-cases (array_slot_type_index ds)) [
          | inl bad ↦ rw (fresh, array_type_index) rw n rw page rw bad (refused _ p s)
          | inr (i, chosen) ↦ elim (Option-cases (get_elem? ds i)) [
            | inl bad ↦ rw (fresh, array_type_index) rw n rw page rw chosen rw bad (refused _ p s)
            | inr (d, at) ↦
                rw (fresh, array_type_index) rw n rw page rw chosen rw at
                  (found (i, d.count) _
                    (learn-IsSound ref.logical_id (i, d.count) p fresh
                      (ref, w, ds, d, refl, page, chosen, at, refl) s)
                    (get-put_self ref.logical_id (i, d.count) p.type_index))
          ]
        ]
      ]
    ]
  ]

  abbrev Built : Text → ℕ → ℕ → Dict ℕ (Option ℕ) → Plans → Type 0
  Built id ti n m p =
      (blocks : List AesBlock) × IsGiven pages id blocks × (m ≡ build_slot_map blocks ti n)

  map_ends :
      (ref : Ref) (t : ℕ × ℕ) (p : Plans) (w : W)
      → Knows ref t p
      → IsSound pages p
      → Ends pages
          (Built ref.logical_id t.0 t.1)
          (slot_element_map pages ref t.0 t.1 p w).0
          (slot_element_map pages ref t.0 t.1 p w).1.0
  unfolding slot_element_map
  map_ends ref t p w known s = elim (Option-cases (get ref.logical_id p.slot_to_element)) [
    | inr (m, cached) ↦
        let (t', blocks, known', given, made) = s.built ref.logical_id m cached in
        let same : t' ≡ t = cc (known, known') in
        rw (cached, slot_element_map) (found m p s (blocks, given, rw (← same) made))
    | inl fresh ↦ elim (Option-cases (pages.element_status w ref.sg_device).0) [
      | inl bad ↦ rw (fresh, slot_element_map) rw bad (refused _ p s)
      | inr (blocks, page) ↦ elim (Bool-cases (is_addressable (build_slot_map blocks t.0 t.1))) [
        | inl y ↦
            rw (fresh, slot_element_map) rw page rw y
              (found _ _ (map-IsSound ref.logical_id t blocks p known (ref, w, refl, page) s)
                (blocks, (ref, w, refl, page), refl))
        | inr n ↦ rw (fresh, slot_element_map) rw page rw n (refused _ p s)
      ]
    ]
  ]

  abbrev Carries : Text → ℕ → ℕ → ℕ → ℕ → Plans → Type 0
  Carries id ti n slot i p =
      (blocks : List AesBlock) × IsGiven pages id blocks × Addressed blocks ti n slot i

  element_ends :
      (ref : Ref) (t : ℕ × ℕ) (slot : ℕ) (p : Plans) (w : W)
      → Knows ref t p
      → IsSound pages p
      → Ends pages
          (Carries ref.logical_id t.0 t.1 slot)
          (element_index_for pages ref t.0 t.1 slot p w).0
          (element_index_for pages ref t.0 t.1 slot p w).1.0
  unfolding element_index_for
  element_ends ref t slot p w known s =
      let look = slot_element_map pages ref t.0 t.1 p w in
      let ends = map_ends ref t p w known s in
      let s' : IsSound pages look.1.0 =
        Ends-IsSound pages (Built ref.logical_id t.0 t.1) look.0 look.1.0 ends in
      elim (Outcome-cases look.0) [
        | inr (e, bad) ↦ rw (bad, element_index_for) (refused e look.1.0 s')
        | inl (m, mapped) ↦
            let (blocks, given, made) =
              Ends-found pages (Built ref.logical_id t.0 t.1) look.0 look.1.0 m ends mapped in
            elim (Outcome-cases (element_in m slot)) [
              | inr (e, bad) ↦ rw (mapped, element_index_for) rw bad (refused e look.1.0 s')
              | inl (i, at) ↦
                  rw (mapped, element_index_for) rw at
                    (found i look.1.0 s'
                      (blocks, given, element_in-Addressed blocks t.0 t.1 slot i (rw made at at)))
            ]
      ]

  -- The element carries the slot's number, without ambiguity, on an element status page that was read
  -- for an enclosure with the id, as the configuration page read for one declares the drive bays.
  abbrev pub IsNamed : Text → ℕ → ℕ × ℕ → Type 0
  IsNamed id slot a =
      (n : ℕ) × (blocks : List AesBlock) × IsTyped pages id (a.0, n)
      × IsGiven pages id blocks
      × Addressed blocks a.0 n slot a.1

  abbrev Names : Text → ℕ → ℕ × ℕ → Plans → Type 0
  Names id slot a p = IsNamed id slot a

  plan_ends :
      (ref : Ref) (slot : ℕ) (p : Plans) (w : W)
      → IsSound pages p
      → Ends pages
          (Names ref.logical_id slot)
          (plan pages ref slot p w).0
          (plan pages ref slot p w).1.0
  unfolding plan
  plan_ends ref slot p w s =
      let first = array_type_index pages ref p w in
      let one = type_index_ends ref p w s in
      let s' : IsSound pages first.1.0 = Ends-IsSound pages (Knows ref) first.0 first.1.0 one in
      elim (Outcome-cases first.0) [
        | inr (e, bad) ↦ rw (bad, plan) (refused e first.1.0 s')
        | inl (t, good) ↦
            let known : Knows ref t first.1.0 =
              Ends-found pages (Knows ref) first.0 first.1.0 t one good in
            let second = element_index_for pages ref t.0 t.1 slot first.1.0 first.1.1 in
            let two = element_ends ref t slot first.1.0 first.1.1 known s' in
            let s'' : IsSound pages second.1.0 =
              Ends-IsSound pages (Carries ref.logical_id t.0 t.1 slot) second.0 second.1.0 two in
            elim (Outcome-cases second.0) [
              | inr (e, bad) ↦ rw (good, plan) rw bad (refused e second.1.0 s'')
              | inl (i, at) ↦
                  let (blocks, given, addressed) =
                    Ends-found pages (Carries ref.logical_id t.0 t.1 slot) second.0 second.1.0 i two
                      at in
                  rw (good, plan) rw at
                    (found (t.0, i) second.1.0 s''
                      (t.1, blocks, s'.typed ref.logical_id t known, given, addressed))
            ]
      ]

  -- The caches stay sound, however a look-up of the writer ends: every cached map was built from a
  -- page of its shelf, for the type index and the count that are cached for the shelf.
  pub plan-IsSound :
      (ref : Ref) (slot : ℕ) (p : Plans) (w : W)
      → IsSound pages p
      → IsSound pages (plan pages ref slot p w).1.0
  plan-IsSound ref slot p w s =
      Ends-IsSound pages (Names ref.logical_id slot) _ _ (plan_ends ref slot p w s)

  -- With sound caches, the element that the writer is about to address for a slot carries that slot
  -- number, without ambiguity, on a page that was read for the enclosure, be it this time or earlier.
  pub plan_addresses :
      (ref : Ref) (slot : ℕ) (p : Plans) (w : W) (ti i : ℕ)
      → IsSound pages p
      → (plan pages ref slot p w).0 ≡ ok (ti, i)
      → IsNamed ref.logical_id slot (ti, i)
  plan_addresses ref slot p w ti i s h =
      Ends-found pages (Names ref.logical_id slot) (plan pages ref slot p w).0
        (plan pages ref slot p w).1.0 (ti, i) (plan_ends ref slot p w s) h

-- ===== src/Access/Exclusion.antt =====
-- The enclosure lock of backend/ktnmgr/enclosure/access.py excludes.
use ktn_enclosure_manager.Common.{
  ℕ, suc, ◌≤◌, ◌-◌, ◌≢◌, refl, length, List, [], ◌∷◌, ==-refl, Bool, true, false, none, some, ◌==◌,
  ==→≡, nat_eq, ◌≡◌, ◌⊎◌, sym, ◌∙◌, ap, Bool-cases, inl, inr, some-injective, arith,
}
use ktn_enclosure_manager.Access.Lock.{
  Lock, at, enter_nested, enter_acquired, enter_degraded, leave_nested, leave_outer, rest_of,
  outermost, innermost, Step, nested, locked, timed_out, left_nested, left_outer, unlocked,
  IsReachable, initially, after, Holds,
}

-- Whoever was given the lock is the holder of the flock, and inside a block.
record IsExclusive (s : Lock) : Type 0 where
  pub holds : (p : ℕ) → s.acquired p ≡ true → s.holder ≡ some p
  pub inside : (p : ℕ) → s.acquired p ≡ true → 1 ≤ s.depth p
  -- A thread is inside as many blocks as its depth says, and the outermost was given `acquired`.
  pub counted : (p : ℕ) → length (s.given p) ≡ s.depth p
  pub told : (p : ℕ) (b : Bool) → outermost (s.given p) ≡ some b → s.acquired p ≡ b

unlocked-IsExclusive : IsExclusive unlocked
unlocked-IsExclusive = record {
  holds = λ p h. absurd (cc h);
  inside = λ p h. absurd (cc h);
  counted = λ p. refl;
  told = λ p b h. absurd (cc h);
}

at-counted :
    (p n : ℕ) (bs : List Bool) (f : ℕ → List Bool) (d : ℕ → ℕ) (q : ℕ)
    → length bs ≡ n
    → length (f q) ≡ d q
    → length (at p bs f q) ≡ at p n d q
at-counted p n bs f d q a b = elim (Bool-cases (p == q)) [ inl e ↦ rw e a | inr e ↦ rw e b ]

-- Where the blocks and the flag of one thread are set, the outermost block of each is still its flag.
at-told :
    (p : ℕ) (bs : List Bool) (c : Bool) (f : ℕ → List Bool) (g : ℕ → Bool) (q : ℕ) (b : Bool)
    → (outermost bs ≡ some b → c ≡ b)
    → (outermost (f q) ≡ some b → g q ≡ b)
    → outermost (at p bs f q) ≡ some b
    → at p c g q ≡ b
at-told p bs c f g q b one other h = elim (Bool-cases (p == q)) [
  | inl e ↦ rw e (one (rw e at h))
  | inr e ↦ rw e (other (rw e at h))
]

at_kept : (p : ℕ) (g : ℕ → Bool) (q : ℕ) → at p (g p) g q ≡ g q
at_kept p g q = elim (Bool-cases (p == q)) [ inl e ↦ rw e (ap g (==→≡ p q e)) | inr e ↦ rw e refl ]

outermost-nested :
    (bs : List Bool) (n : ℕ) → length bs ≡ suc n → outermost (true ∷ bs) ≡ outermost bs
outermost-nested [] n h = absurd (omega (arith, h))
outermost-nested (b ∷ bs) n h = refl

outermost-rest_of :
    (bs : List Bool) (n : ℕ) → length bs ≡ suc (suc n) → outermost (rest_of bs) ≡ outermost bs
outermost-rest_of [] n h = refl
outermost-rest_of (b ∷ []) n h = absurd (omega (arith, h))
outermost-rest_of (b ∷ c ∷ bs) n h = refl

length-rest_of : (bs : List Bool) (n : ℕ) → length bs ≡ suc n → length (rest_of bs) ≡ n
length-rest_of [] n h = absurd (omega (arith, h))
length-rest_of (b ∷ bs) n h = omega (arith, h)

not_other : (p q : ℕ) → (p == q) ≡ false → p ≡ q → ⊥
not_other p q other same = ground (arith, other, same)

at-cases :
    {A : Type 0} (p : ℕ) (a : A) (f : ℕ → A) (q : ℕ)
    → ((p ≡ q) × (at p a f q ≡ a)) ⊎ (((p == q) ≡ false) × (at p a f q ≡ f q))
at-cases p a f q = elim (Bool-cases (p == q)) [
  | inl e ↦ inl (==→≡ p q e, rw (e))
  | inr e ↦ inr (e, rw (e))
]

at_same : (p n : ℕ) (f : ℕ → ℕ) (q : ℕ) → p ≡ q → 1 ≤ at p (suc n) f q
at_same p n f q same = elim (at-cases p (suc n) f q) [
  | inl (_, e) ↦ omega (arith, e)
  | inr (d, _) ↦ absurd (not_other p q d same)
]

-- A depth that is set stays at least 1, if the one set and the one before are.
at_positive : (p n : ℕ) (f : ℕ → ℕ) (q : ℕ) → 1 ≤ n → 1 ≤ f q → 1 ≤ at p n f q
at_positive p n f q a b = elim (at-cases p n f q) [
  | inl (_, e) ↦ omega (arith, e, a)
  | inr (_, e) ↦ omega (arith, e, b)
]

-- A flag that is set where only `false` was put was set before, and for another thread.
at-false :
    (p : ℕ) (f : ℕ → Bool) (q : ℕ) → at p false f q ≡ true → ((p == q) ≡ false) × (f q ≡ true)
at-false p f q h = elim (at-cases p false f q) [
  | inl (_, e) ↦ absurd (cc (sym e ∙ h))
  | inr (d, e) ↦ (d, sym e ∙ h)
]

at_other : (p n : ℕ) (f : ℕ → ℕ) (q : ℕ) → (p == q) ≡ false → 1 ≤ f q → 1 ≤ at p n f q
at_other p n f q d b = rw (d) b

locked-IsExclusive :
    {s : Lock} (p : ℕ) → s.holder ≡ none → IsExclusive s → IsExclusive (enter_acquired p s)
unfolding enter_acquired
locked-IsExclusive {s = s} p h i = record {
  holds = λ q a. elim (at-cases p true s.acquired q) [
    | inl (same, _) ↦ ap some same
    | inr (_, e) ↦ absurd (cc (sym h ∙ i.holds q (sym e ∙ a)))
  ];
  inside = λ q a. elim (at-cases p true s.acquired q) [
    | inl (same, _) ↦ at_same p 0 s.depth q same
    | inr (_, e) ↦ at_positive p 1 s.depth q (omega arith) (i.inside q (sym e ∙ a))
  ];
  counted = λ q. at-counted p 1 (true ∷ []) s.given s.depth q refl (i.counted q);
  told = λ q b. at-told p (true ∷ []) true s.given s.acquired q b some-injective (i.told q b);
}

timed_out-IsExclusive : {s : Lock} (p : ℕ) → IsExclusive s → IsExclusive (enter_degraded p s)
unfolding enter_degraded
timed_out-IsExclusive {s = s} p i = record {
  holds = λ q a. i.holds q (at-false p s.acquired q a).1;
  inside =
      λ q a. at_positive p 1 s.depth q (omega arith) (i.inside q (at-false p s.acquired q a).1);
  counted = λ q. at-counted p 1 (false ∷ []) s.given s.depth q refl (i.counted q);
  told = λ q b. at-told p (false ∷ []) false s.given s.acquired q b some-injective (i.told q b);
}

left_outer-IsExclusive : {s : Lock} (p : ℕ) → IsExclusive s → IsExclusive (leave_outer p s)
unfolding leave_outer
left_outer-IsExclusive {s = s} p i = record {
  holds = λ q a.
      let (other, before) = at-false p s.acquired q a in
      elim (Bool-cases (s.acquired p)) [
        | inr was_not ↦ rw (was_not) (i.holds q before)
        | inl was ↦
            absurd (not_other p q other (some-injective (sym (i.holds p was) ∙ i.holds q before)))
      ];
  inside = λ q a.
      let (other, before) = at-false p s.acquired q a in
      at_other p 0 s.depth q other (i.inside q before);
  counted = λ q. at-counted p 0 [] s.given s.depth q refl (i.counted q);
  told = λ q b. at-told p [] false s.given s.acquired q b (λ h. absurd (cc h)) (i.told q b);
}

Step-IsExclusive : {s t : Lock} → Step s t → IsExclusive s → IsExclusive t
unfolding enter_nested leave_nested
Step-IsExclusive {s = s} (nested p n e) i = record {
  holds = i.holds;
  inside = λ q h. at_positive p (suc (s.depth p)) s.depth q (omega arith) (i.inside q h);
  counted = λ q.
      at-counted p (suc (s.depth p)) (true ∷ s.given p) s.given s.depth q (ap suc (i.counted p))
        (i.counted q);
  told = λ q b h.
      sym (at_kept p s.acquired q)
      ∙ at-told p (true ∷ s.given p) (s.acquired p) s.given s.acquired q b
          (λ o. i.told p b (sym (outermost-nested (s.given p) n (i.counted p ∙ e)) ∙ o))
          (i.told q b) h;
}
Step-IsExclusive (locked p e h) i = locked-IsExclusive p h i
Step-IsExclusive (timed_out p e) i = timed_out-IsExclusive p i
Step-IsExclusive {s = s} (left_nested p n e) i = record {
  holds = i.holds;
  inside = λ q h. at_positive p (suc n) s.depth q (omega arith) (i.inside q h);
  counted = λ q.
      at-counted p (suc n) (rest_of (s.given p)) s.given s.depth q
        (length-rest_of (s.given p) (suc n) (i.counted p ∙ e)) (i.counted q);
  told = λ q b h.
      sym (at_kept p s.acquired q)
      ∙ at-told p (rest_of (s.given p)) (s.acquired p) s.given s.acquired q b
          (λ o. i.told p b (sym (outermost-rest_of (s.given p) n (i.counted p ∙ e)) ∙ o))
          (i.told q b) h;
}
Step-IsExclusive (left_outer p e) i = left_outer-IsExclusive p i

IsReachable-IsExclusive : {s : Lock} → IsReachable s → IsExclusive s
IsReachable-IsExclusive initially = unlocked-IsExclusive
IsReachable-IsExclusive (after r step) = Step-IsExclusive step (IsReachable-IsExclusive r)

at_self : {A : Type 0} (p : ℕ) (a : A) (f : ℕ → A) → at p a f p ≡ a
at_self p a f = rw (==-refl p) refl

at-ne : {A : Type 0} (q p : ℕ) (a : A) (f : ℕ → A) → p ≢ q → at q a f p ≡ f p
at-ne q p a f other = elim (Bool-cases (q == p)) [
  | inl e ↦ absurd (other (sym (==→≡ q p e)))
  | inr e ↦ rw e refl
]

inside_some : (bs : List Bool) {n : ℕ} → outermost bs ≡ some false → length bs ≡ n → 1 ≤ n
inside_some [] h e = absurd (cc h)
inside_some (b ∷ bs) h e = omega (arith, e)

abbrev pred_of : ℕ → ℕ
pred_of n = n - 1

one_less : (n : ℕ) → 1 ≤ n → n ≡ suc (pred_of n)
one_less n h = omega (arith, h)

-- Whatever the threads of the processes do, however their blocks nest and whichever of them run out of
-- time, two threads whose outermost blocks were both given True are one. (A nested block is given True
-- in any case.)
pub mutual_exclusion : {s : Lock} {p q : ℕ} → IsReachable s → Holds s p → Holds s q → p ≡ q
mutual_exclusion r a b =
    let i = IsReachable-IsExclusive r in
    some-injective (sym (i.holds _ (i.told _ true a)) ∙ i.holds _ (i.told _ true b))

-- While a block that was given the lock runs, the flock is its thread's.
held_while_inside : {s : Lock} {p : ℕ} → IsReachable s → Holds s p → s.holder ≡ some p
held_while_inside r a = let i = IsReachable-IsExclusive r in i.holds _ (i.told _ true a)

-- A thread whose outermost block ran out of time can enter a block inside it while another thread holds
-- the lock, and that block is given True: two threads are then inside blocks that were given True.
pub nested_given_true :
    {s : Lock} {p q : ℕ}
    → IsReachable s
    → Holds s p
    → outermost (s.given q) ≡ some false
    → (t : Lock) × IsReachable t
      × (p ≢ q)
      × (t.holder ≡ some p)
      × (innermost (t.given p) ≡ innermost (s.given p))
      × (innermost (t.given q) ≡ some true)
unfolding enter_nested
nested_given_true {s = s} {p = p} {q = q} r a degraded =
    let i = IsReachable-IsExclusive r in
    let other : p ≢ q = λ same. cc (a, degraded, same) in
    (
      enter_nested q s,
      after r (
          nested q (pred_of (s.depth q))
            (one_less (s.depth q) (inside_some (s.given q) degraded (i.counted q)))),
      other,
      held_while_inside r a,
      ap innermost (at-ne q p (true ∷ s.given q) s.given other),
      ap innermost (at_self q (true ∷ s.given q) s.given),
    )

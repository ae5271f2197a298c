-- ===== src/Notify/Served.antt =====
-- One evaluation, bay by bay.
use ktn_enclosure_manager.Common.{
  ℕ, zero, suc, ◌+◌, ◌≡◌, refl, ap, subst, ◌∙◌, Bool, true, false, not, ◌&&◌, Option, none, some,
  List, [], ◌∷◌, get_elem?, if◌then◌else◌, ◌==◌, list_eq, nat_eq, pair_eq, int_eq, arith,
  Bool-cases, inl, inr, ==-comm,
}
use ktn_enclosure_manager.Common.Dict.{get, get-put_self, get-pop_self}
use ktn_enclosure_manager.Common.Text.{Text}
use ktn_enclosure_manager.Bays.Model.{health_value}
use ktn_enclosure_manager.Notify.Notifier.{
  BayKey, Bay, key_of, Response, delivered, Config, Notifier, Verdict, steady, silent, cooling,
  attempt, judge, Scan, act, scan_bay, scan, conclude, conclude_all, evaluate,
}
use ktn_enclosure_manager.Notify.Delivery.{
  names, SameAt, SameAt-trans, act_elsewhere, scan_elsewhere, conclude_all_elsewhere,
  conclude_all-append, conclude_all_alike,
}

-- No two bays of the list have the same enclosure and slot.
unfoldable pub is_distinct : List Bay → Bool
is_distinct [] = true
is_distinct (b ∷ bs) = not (names (key_of b) bs) && is_distinct bs

-- What the operator was last told of a bay, and until when it is not tried again.
pub record Told : Type 0 where
  pub health : Option Text
  pub retry : Option ℕ

unfoldable pub told_of : BayKey → Notifier → Told
told_of k n = record { health = get k n.last; retry = get k n.retry_at }

told_in : BayKey → Scan → Told
told_in k s = record { health = get k s.last; retry = get k s.retry_at }

-- One bay alone: what it is told, given whether the endpoint would accept the alert.
unfoldable pub serve : Config → ℕ → Bool → Bay → Told → Told
serve c now accepted b t = elim (judge c now t.health t.retry b.health) [
  | steady ↦ record t { retry = none }
  | silent ↦ record { health = some (health_value b.health); retry = none }
  | cooling ↦ t
  | attempt ↦
      if accepted
      then record { health = some (health_value b.health); retry = none }
      else record t { retry = some (now + c.retry_seconds) }
]

names-get_elem? :
    (k : BayKey) (bs : List Bay) (i : ℕ) (b : Bay)
    → names k bs ≡ false
    → get_elem? bs i ≡ some b
    → (key_of b == k) ≡ false
names-get_elem? k [] i b h e = ground arith
names-get_elem? k (a ∷ bs) zero b h e = ground arith
names-get_elem? k (a ∷ bs) (suc i) b h e = names-get_elem? k bs i b (ground arith) e

told_in-alike : (k : BayKey) (s t : Scan) → SameAt k s t → told_in k t ≡ told_in k s
unfolding told_in
told_in-alike k s t e = rw (e.last, e.retry) refl

module _ (c : Config) (now : ℕ) (post : Bay → Option Text → Response) where
  run : List Bay → Scan → Scan
  run bs s = conclude_all c now post (scan c now bs s).1 (scan c now bs s).0

  -- The step of the loop, then the answer to what it posts.
  alone : Verdict → Bay → Option Text → Scan → Scan
  alone v b previous s = conclude_all c now post (act v b previous s).1 (act v b previous s).0

  abbrev verdict_at : Bay → Scan → Verdict
  verdict_at b s = judge c now (get (key_of b) s.last) (get (key_of b) s.retry_at) b.health

  run_head :
      (b : Bay) (bs : List Bay) (s : Scan)
      → names (key_of b) bs ≡ false
      → SameAt (key_of b) (alone (verdict_at b s) b (get (key_of b) s.last) s) (run (b ∷ bs) s)
  unfolding run scan scan_bay alone
  run_head b bs s h =
      let k : BayKey = key_of b in
      let step = act (verdict_at b s) b (get k s.last) s in
      let others = scan_elsewhere c now k bs step.0 h in
      rw (conclude_all-append c now post step.1 (scan c now bs step.0).1 (scan c now bs step.0).0) (
        SameAt-trans k _ _ _ (conclude_all_alike c now post k step.1 _ _ others.0)
          (conclude_all_elsewhere c now post k (scan c now bs step.0).1 _ others.1))

  run_tail :
      (k : BayKey) (b : Bay) (bs : List Bay) (s : Scan)
      → (key_of b == k) ≡ false
      → SameAt k s (scan_bay c now b s).0
        × SameAt k (run bs (scan_bay c now b s).0) (run (b ∷ bs) s)
  unfolding run scan scan_bay
  run_tail k b bs s h =
      let step = act (verdict_at b s) b (get (key_of b) s.last) s in
      let here = act_elsewhere (verdict_at b s) k b (get (key_of b) s.last) s h in
      (
        here.0,
        rw (conclude_all-append c now post step.1 (scan c now bs step.0).1 (scan c now bs step.0).0)
            (conclude_all_alike c now post k (scan c now bs step.0).1 _ _
              (conclude_all_elsewhere c now post k step.1 _ here.1)),
      )

  alone_served :
      (v : Verdict) (b : Bay) (s : Scan)
      → verdict_at b s ≡ v
      → told_in (key_of b) (alone v b (get (key_of b) s.last) s)
        ≡ serve c now (delivered (post b (get (key_of b) s.last))) b (told_in (key_of b) s)
  unfolding alone told_in act conclude_all serve get
  alone_served steady b s e = rw (e, serve) rw (get-pop_self (key_of b) s.retry_at) refl
  alone_served silent b s e =
      rw (e, serve) rw
        (get-pop_self (key_of b) s.retry_at, get-put_self (key_of b) (health_value b.health) s.last)
        refl
  alone_served cooling b s e = rw (e, serve) refl
  alone_served attempt b s e = elim (Bool-cases (delivered (post b (get (key_of b) s.last)))) [
    | inl y ↦
        rw (e, serve) rw (y, conclude) rw
          (
            get-pop_self (key_of b) s.retry_at,
            get-put_self (key_of b) (health_value b.health) s.last,
          )
          refl
    | inr n ↦
        rw (e, serve) rw (n, conclude) rw
          (get-put_self (key_of b) (now + c.retry_seconds) s.retry_at) refl
  ]

  -- `b` is told as if it was alone.
  IsServed : List Bay → Bay → Scan → Type 0
  IsServed bs b s =
      told_in (key_of b) (run bs s)
      ≡ serve c now (delivered (post b (told_in (key_of b) s).health)) b (told_in (key_of b) s)

  head-IsServed :
      (b : Bay) (bs : List Bay) (s : Scan) → names (key_of b) bs ≡ false → IsServed (b ∷ bs) b s
  unfolding IsServed told_in
  head-IsServed b bs s h =
      told_in-alike (key_of b) _ _ (run_head b bs s h) ∙ alone_served (verdict_at b s) b s refl

  tail-IsServed :
      (a b : Bay) (bs : List Bay) (s : Scan)
      → (key_of a == key_of b) ≡ false
      → IsServed bs b (scan_bay c now a s).0
      → IsServed (a ∷ bs) b s
  unfolding IsServed
  tail-IsServed a b bs s ne ih =
      let k : BayKey = key_of b in
      let t = run_tail k a bs s ne in
      told_in-alike k _ _ t.1
      ∙ ih
      ∙ ap (λ x. serve c now (delivered (post b x.health)) b x) (told_in-alike k _ _ t.0)

  IsServed-of :
      (bs : List Bay) (i : ℕ) (b : Bay) (s : Scan)
      → is_distinct bs ≡ true
      → get_elem? bs i ≡ some b
      → IsServed bs b s
  unfolding is_distinct
  IsServed-of [] i b s d e = absurd (cc e)
  IsServed-of (a ∷ bs) zero b s d e =
      subst (λ x. IsServed (a ∷ bs) x s) (cc e) (head-IsServed a bs s (ground arith))
  IsServed-of (a ∷ bs) (suc i) b s d e =
      tail-IsServed a b bs s
        (==-comm (key_of b) (key_of a) (names-get_elem? (key_of a) bs i b (ground arith) e))
        (IsServed-of bs i b (scan_bay c now a s).0 (ground arith) e)

-- When notification is on and no two bays share an enclosure and slot, an evaluation leaves each
-- bay of the list with what it would be told if it was served alone, whatever the other bays and
-- the answers to their alerts are.
pub evaluate_serves_each :
    (c : Config) (now : ℕ) (post : Bay → Option Text → Response) (bays : List Bay) (n : Notifier)
    (i : ℕ) (b : Bay)
    → c.enabled ≡ true
    → is_distinct bays ≡ true
    → get_elem? bays i ≡ some b
    → told_of (key_of b) (evaluate c now post bays n)
      ≡ serve c now (delivered (post b (told_of (key_of b) n).health)) b (told_of (key_of b) n)
unfolding evaluate told_of IsServed told_in run serve
evaluate_serves_each c now post bays n i b on d e = rw on (
    IsServed-of c now post bays i b
      (record { last = n.last; retry_at = n.retry_at; changed = false }) d e)

-- An evaluation leaves what is known of a bay that is not in its list as it was.
pub evaluate_spares :
    (c : Config) (now : ℕ) (post : Bay → Option Text → Response) (bays : List Bay) (n : Notifier)
    (k : BayKey)
    → names k bays ≡ false
    → told_of k (evaluate c now post bays n) ≡ told_of k n
unfolding evaluate told_of
evaluate_spares c now post bays n k h = elim (Bool-cases c.enabled) [
  | inl on ↦
      let start : Scan = record { last = n.last; retry_at = n.retry_at; changed = false } in
      let first = scan_elsewhere c now k bays start h in
      let after =
        conclude_all_elsewhere c now post k (scan c now bays start).1 (scan c now bays start).0
          first.1 in
      rw on rw (after.last, after.retry, first.0.last, first.0.retry) refl
  | inr off ↦ rw off refl
]

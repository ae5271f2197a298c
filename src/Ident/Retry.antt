-- ===== src/Ident/Retry.antt =====
-- The bounded retry of automatic clears in `_tick`.
use ktn_enclosure_manager.Common.{
  ℕ, ◌+◌, ◌-◌, ◌*◌, ◌^◌, ◌≤◌, ◌<◌, ℤ, ◌≡◌, refl, ap, true, false, Option, some, none, List, [], ◌∷◌,
  arith, ltb, leb, length, list_eq, nat_eq, pair_eq, int_eq, if◌then◌else◌, inl, inr, Bool-cases,
}
use ktn_enclosure_manager.Common.Dict.{
  Dict, get, put, pop, get-put, get-pop, get-put_self, get-pop_self,
}
use ktn_enclosure_manager.Common.Text.{Text, codes}
use ktn_enclosure_manager.Errors.{Exception, Outcome, raise, Outcome-cases, is_locate_or_lookup}
use ktn_enclosure_manager.Locate.Request.{int_value, str_value, validate_request}
use ktn_enclosure_manager.Ident.State.{Key, IdentRecord, Manager, expired}
use ktn_enclosure_manager.Ident.Host.{Host, Policy, Sys}
use ktn_enclosure_manager.Ident.Identify.{
  Request, identify, publish, off_updates, on_updates, apply_all,
}
use ktn_enclosure_manager.Ident.Effects.{
  Ended, published, failed, identify_ends, identify_invalid, identify_failure_keeps,
}
use ktn_enclosure_manager.Ident.Timers.{
  clear_as, clear_failed, failures_of, tick_record, tick_items, tick,
}

-- Every failure count that is kept is below the limit.
pub record IsBounded (p : Policy) (m : Manager) : Type 0 where
  pub below :
      (key : Key) (n t : ℕ) → get key m.clear_failures ≡ some (n, t) → n < p.clear_max_attempts

module _ {W : Type 0} (h : Host W) where
  publish_failures :
      (key : Key) (q : Request) (s : Sys W)
      → (publish h key q s).1.manager.clear_failures ≡ pop key s.manager.clear_failures
  unfolding publish off_updates on_updates apply_all
  publish_failures key q s = ground arith

  Ended-IsBounded :
      (p : Policy) (key : Key) (q : Request) (m : Manager)
      (res : Outcome (Option IdentRecord) × Sys W)
      → Ended h key q m res
      → IsBounded p m
      → IsBounded p res.1.manager
  Ended-IsBounded p key q m res (published t same eq) b = record {
    below = λ j n u found.
        b.below j n u
          (ground (arith, publish_failures key q t, get-pop key j t.manager.clear_failures));
  }
  Ended-IsBounded p key q m res (failed e raised same) b = rw same b

  identify-IsBounded :
      (p : Policy) (id : Text) (slot : ℤ) (q : Request) (s : Sys W)
      → IsBounded p s.manager
      → IsBounded p (identify h id slot q s).1.manager
  identify-IsBounded p id slot q s b =
      elim (Outcome-cases (validate_request (str_value id) (int_value slot))) [
        | inl (key, v) ↦ Ended-IsBounded p key q s.manager _ (identify_ends h id slot q s key v) b
        | inr (e, v) ↦ rw (identify_invalid h id slot q s v) b
      ]

module _ {W : Type 0} (h : Host W) (p : Policy) where
  clear_failed-IsBounded :
      (now : ℕ) (key : Key) (attempts : ℕ) (s : Sys W)
      → IsBounded p s.manager
      → IsBounded p (clear_failed h p now key attempts s).manager
  unfolding clear_failed
  clear_failed-IsBounded now key attempts s b =
      elim (Bool-cases (leb p.clear_max_attempts attempts)) [
        | inl y ↦
            rw (y, clear_failed)
              (record {
                below = λ j n u found.
                    b.below j n u (ground (arith, get-pop key j s.manager.clear_failures));
              })
        | inr m ↦
            rw (m, clear_failed)
              (record {
                below = λ j n u found. ground (
                  arith,
                  b.below j n u,
                  get-put key j (attempts, now + p.clear_backoff * 2 ^ (attempts - 1))
                      s.manager.clear_failures,
                );
              })
      ]

  -- How one record of the loop ends: it is skipped, the clear returns or raises something else,
  -- or the failed clear is counted.
  abbrev pub timer_clear : IdentRecord → Sys W → Outcome (Option IdentRecord) × Sys W
  timer_clear r s = identify h r.enclosure_id r.ses_slot (clear_as (codes "system:timer")) s

  pub data Passed (now : ℕ) (key : Key) (r : IdentRecord) (s : Sys W) (s' : Sys W) : Type 0 where
    skipped : s' ≡ s → Passed now key r s s'
    called : s' ≡ (timer_clear r s).1 → Passed now key r s s'
    counted :
        (e : Exception)
        → (timer_clear r s).0 ≡ raise e
        → s' ≡ clear_failed h p now key ((failures_of h p now key s).0 + 1) (timer_clear r s).1
        → Passed now key r s s'

  tick_record_passes :
      (now : ℕ) (key : Key) (r : IdentRecord) (s : Sys W)
      → Passed now key r s (tick_record h p now key r s).1
  unfolding tick_record
  tick_record_passes now key r s = elim (Bool-cases (expired r now)) [
    | inr n ↦ rw (n, tick_record) (skipped refl)
    | inl y ↦ elim (Bool-cases (ltb now (failures_of h p now key s).1)) [
      | inl w ↦ rw (y, tick_record) (rw w (skipped refl))
      | inr o ↦ elim (Outcome-cases (timer_clear r s).0) [
        | inl (x, done) ↦ rw (y, tick_record) (rw o (rw done (called refl)))
        | inr (e, bad) ↦ elim (Bool-cases (is_locate_or_lookup e)) [
          | inl c ↦ rw (y, tick_record) (rw o (rw bad (rw c (counted e bad refl))))
          | inr c ↦ rw (y, tick_record) (rw o (rw bad (rw c (called refl))))
        ]
      ]
    ]
  ]

  Passed-IsBounded :
      (now : ℕ) (key : Key) (r : IdentRecord) (s s' : Sys W)
      → Passed now key r s s'
      → IsBounded p s.manager
      → IsBounded p s'.manager
  Passed-IsBounded now key r s s' (skipped e) b = rw e b
  Passed-IsBounded now key r s s' (called e) b =
      rw e (identify-IsBounded h p r.enclosure_id r.ses_slot (clear_as (codes "system:timer")) s b)
  Passed-IsBounded now key r s s' (counted x bad e) b = rw e (
      clear_failed-IsBounded now key _ _
        (identify-IsBounded h p r.enclosure_id r.ses_slot (clear_as (codes "system:timer")) s b))

  tick_items-IsBounded :
      (now : ℕ) (items : List (Key × IdentRecord)) (s : Sys W)
      → IsBounded p s.manager
      → IsBounded p (tick_items h p now items s).1.manager
  unfolding tick_items
  tick_items-IsBounded now [] s b = b
  tick_items-IsBounded now ((key, r) ∷ items) s b =
      let s' : Sys W = (tick_record h p now key r s).1 in
      let b' : IsBounded p s'.manager =
        Passed-IsBounded now key r s s' (tick_record_passes now key r s) b in
      elim (Outcome-cases (tick_record h p now key r s).0) [
        | inl (x, y) ↦ rw (y, tick_items) (tick_items-IsBounded now items s' b')
        | inr (e, n) ↦ rw (n, tick_items) b'
      ]

  -- A pass of the timer loop keeps every failure count below the limit, whatever the clears do.
  pub tick-IsBounded : (s : Sys W) → IsBounded p s.manager → IsBounded p (tick h p s).manager
  unfolding tick
  tick-IsBounded s b = tick_items-IsBounded (h.utc s.world) s.manager.records s b

  -- A pass over one record in which the clear is due and fails as a `LocateError` or a
  -- `LookupError`: below the limit the records stay and the next try is `backoff * 2 ^ failures`
  -- later, at the limit the record and its retry state are dropped.
  pub tick_record_retries :
      (now : ℕ) (key : Key) (r : IdentRecord) (s : Sys W) (e : Exception)
      → expired r now ≡ true
      → ltb now (failures_of h p now key s).1 ≡ false
      → (timer_clear r s).0 ≡ raise e
      → is_locate_or_lookup e ≡ true
      → let n = (failures_of h p now key s).0 in
        let m = (tick_record h p now key r s).1.manager in
        let last = leb p.clear_max_attempts (n + 1) in
        (m.records ≡ (if last then pop key s.manager.records else s.manager.records))
        × (get key m.clear_failures
            ≡ (if last then none else some (n + 1, now + p.clear_backoff * 2 ^ n)))
  unfolding tick_record clear_failed
  tick_record_retries now key r s e due past bad caught =
      let keeps : (timer_clear r s).1.manager ≡ s.manager =
        identify_failure_keeps h r.enclosure_id r.ses_slot (clear_as (codes "system:timer")) s e
          bad in
      let n = (failures_of h p now key s).0 in
      rw (due, tick_record)
        (rw past (
          rw bad (
            rw caught (elim (Bool-cases (leb p.clear_max_attempts (n + 1))) [
              | inl y ↦
                  rw (y, clear_failed)
                    (ap (λ (m : Manager). pop key m.records) keeps, get-pop_self key _)
              | inr m ↦ rw (m, clear_failed) (ap (λ (m : Manager). m.records) keeps, put_next n _)
            ]))))
    where
      put_next :
          (n : ℕ) (d : Dict Key (ℕ × ℕ))
          → get key (put key (n + 1, now + p.clear_backoff * 2 ^ (n + 1 - 1)) d)
            ≡ some (n + 1, now + p.clear_backoff * 2 ^ n)
      put_next n d = let e1 : n + 1 - 1 ≡ n = omega arith in rw e1 (get-put_self key _ d)

  -- Successive passes over one record, at the times of the list.
  pub passes : Key → IdentRecord → List ℕ → Sys W → Sys W
  passes key r [] s = s
  passes key r (now ∷ nows) s = passes key r nows (tick_record h p now key r s).1

  -- The passes come when the record has expired and the back-off of the failure before is over.
  abbrev pub AreDue : IdentRecord → ℕ → ℕ → List ℕ → Type 0
  AreDue r n t [] = Unit
  AreDue r n t (now ∷ nows) =
      (expired r now ≡ true) × (t ≤ now) × AreDue r (n + 1) (now + p.clear_backoff * 2 ^ n) nows

  module _ (key : Key) (r : IdentRecord)
      (stuck : (u : Sys W)
        → (e : Exception) × ((timer_clear r u).0 ≡ raise e) × (is_locate_or_lookup e ≡ true)) where
    abbrev Left : Sys W → ℕ → Sys W → Type 0
    Left s n s' =
        s'.manager.records
        ≡ (if leb p.clear_max_attempts n then pop key s.manager.records else s.manager.records)

    counted_pass :
        (now : ℕ) (s : Sys W) (n t : ℕ)
        → failures_of h p now key s ≡ (n, t)
        → expired r now ≡ true
        → t ≤ now
        → Left s (n + 1) (tick_record h p now key r s).1
          × (get key (tick_record h p now key r s).1.manager.clear_failures ≡ (
              if leb p.clear_max_attempts (n + 1)
              then none
              else some (n + 1, now + p.clear_backoff * 2 ^ n)))
    counted_pass now s n t held due past =
        let (e, bad, caught) = stuck s in
        rw (← ap (λ (f : ℕ × ℕ). f.0) held)
          (tick_record_retries now key r s e due (ground arith) bad caught)

    passes-Left :
        (nows : List ℕ) (s : Sys W) (n t : ℕ)
        → get key s.manager.clear_failures ≡ some (n, t)
        → n < p.clear_max_attempts
        → n + length nows ≤ p.clear_max_attempts
        → AreDue r n t nows
        → Left s (n + length nows) (passes key r nows s)
    unfolding passes
    passes-Left [] s n t held below fits due = ground arith
    passes-Left (now ∷ []) s n t held below fits due =
        ground (arith, counted_pass now s n t (ground arith) due.0 due.1)
    passes-Left (now ∷ x ∷ nows) s n t held below fits due =
        let (left, kept) = counted_pass now s n t (ground arith) due.0 due.1 in
        ground (
          arith,
          left,
          kept,
          passes-Left (x ∷ nows) (tick_record h p now key r s).1 (n + 1)
              (now + p.clear_backoff * 2 ^ n),
        )

    -- A record with no failed clear yet, in passes that are due and in which every clear fails as a
    -- `LocateError` or a `LookupError`: it stays through fewer passes than `clear_max_attempts`,
    -- and is dropped by the pass that makes their number `clear_max_attempts`.
    pub passes_give_up :
        (now : ℕ) (nows : List ℕ) (s : Sys W)
        → get key s.manager.clear_failures ≡ none
        → 1 + length nows ≤ p.clear_max_attempts
        → AreDue r 0 now (now ∷ nows)
        → (passes key r (now ∷ nows) s).manager.records ≡ (
            if leb p.clear_max_attempts (1 + length nows)
            then pop key s.manager.records
            else s.manager.records)
    unfolding passes
    passes_give_up now [] s fresh fits due =
        ground (arith, counted_pass now s 0 now (ground arith) due.0 due.1)
    passes_give_up now (x ∷ nows) s fresh fits due =
        let (left, kept) = counted_pass now s 0 now (ground arith) due.0 due.1 in
        ground (
          arith,
          left,
          kept,
          passes-Left (x ∷ nows) (tick_record h p now key r s).1 1 (now + p.clear_backoff * 2 ^ 0),
        )

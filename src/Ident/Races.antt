-- ===== src/Ident/Races.antt =====
-- Two ways in which a pass of the timer loop goes wrong.
use ktn_enclosure_manager.Common.{
  ℕ, ◌≡◌, refl, ap, ◌∙◌, true, false, Option, some, none, List, ◌∷◌, ltb, list_eq, nat_eq, pair_eq,
  int_eq, subst, sym,
}
use ktn_enclosure_manager.Common.Dict.{get}
use ktn_enclosure_manager.Common.Text.{codes}
use ktn_enclosure_manager.Errors.{Exception, Outcome, ok, raise, is_locate_or_lookup}
use ktn_enclosure_manager.Locate.Request.{int_value, str_value, validate_request}
use ktn_enclosure_manager.Ident.State.{Key, IdentRecord, expired}
use ktn_enclosure_manager.Ident.Host.{Host, Policy, Sys}
use ktn_enclosure_manager.Ident.Effects.{identify_off_clears, identify_failure_keeps}
use ktn_enclosure_manager.Ident.Timers.{clear_as, failures_of, tick_record, tick_items, tick}
use ktn_enclosure_manager.Ident.Retry.{timer_clear}

module _ {W : Type 0} (h : Host W) (p : Policy) where
  -- The loop walks a copy of the records. If a bay has been given a fresh request since the copy
  -- was taken, which has not expired, the pass over the old copy of its record, once expired and
  -- due, still removes the fresh request whenever the clear returns.
  pub stale_pass_clears_fresh :
      (now : ℕ) (key : Key) (stale fresh : IdentRecord) (s : Sys W) (x : Option IdentRecord)
      → validate_request (str_value stale.enclosure_id) (int_value stale.ses_slot) ≡ ok key
      → get key s.manager.records ≡ some fresh
      → expired fresh now ≡ false
      → expired stale now ≡ true
      → ltb now (failures_of h p now key s).1 ≡ false
      → (timer_clear h p stale s).0 ≡ ok x
      → get key (tick_record h p now key stale s).1.manager.records ≡ none
  unfolding tick_record
  stale_pass_clears_fresh now key stale fresh s x valid held live due past returned =
      let (k, v, empty, cleared, saved) =
        identify_off_clears h stale.enclosure_id stale.ses_slot (clear_as (codes "system:timer")) s
          x refl returned in
      let same : k ≡ key = cc in
      rw (due, tick_record) (rw past (rw returned (rw (← same) cleared.no_record)))

  -- If the first record of the dictionary has expired and is due, and its clear raises an exception
  -- other than `LocateError` and `LookupError`, the pass is that clear and nothing else: no later record
  -- is looked at, and the dictionaries are as before, so no failure is counted and no back-off starts.
  pub uncaught_error_blocks :
      (s : Sys W) (key : Key) (r : IdentRecord) (items : List (Key × IdentRecord)) (e : Exception)
      → s.manager.records ≡ (key, r) ∷ items
      → expired r (h.utc s.world) ≡ true
      → ltb (h.utc s.world) (failures_of h p (h.utc s.world) key s).1 ≡ false
      → (timer_clear h p r s).0 ≡ raise e
      → is_locate_or_lookup e ≡ false
      → (tick h p s ≡ (timer_clear h p r s).1) × ((tick h p s).manager ≡ s.manager)
  unfolding tick tick_items tick_record
  uncaught_error_blocks s key r items e first due past bad uncaught =
      let keeps : (timer_clear h p r s).1.manager ≡ s.manager =
        identify_failure_keeps h r.enclosure_id r.ses_slot (clear_as (codes "system:timer")) s e
          bad in
      let ended : tick h p s ≡ (timer_clear h p r s).1 =
        subst (λ l. (tick_items h p (h.utc s.world) l s).1 ≡ (timer_clear h p r s).1) (sym first)
          (rw (ap (λ (o : Outcome (Unit {0}) × Sys W). o.0) raised, tick_items)
            (ap (λ (o : Outcome (Unit {0}) × Sys W). o.1) raised)) in
      (ended, ap (λ (t : Sys W). t.manager) ended ∙ keeps)
    where
      raised : tick_record h p (h.utc s.world) key r s ≡ (raise e, (timer_clear h p r s).1)
      raised = rw (due, tick_record) (rw past (rw bad (rw uncaught refl)))

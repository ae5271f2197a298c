-- ===== src/Ident/Timers.antt =====
-- `IdentManager.reconcile` at startup and one pass of `IdentManager._tick`.
use ktn_enclosure_manager.Common.{
  ℕ, ◌+◌, ◌-◌, ◌*◌, ◌^◌, Bool, true, false, none, some, List, [], ◌∷◌, ltb, leb, if◌then◌else◌,
  list_eq, nat_eq, pair_eq, int_eq,
}
use ktn_enclosure_manager.Common.Dict.{Dict, get, put, pop}
use ktn_enclosure_manager.Common.Text.{Text, codes}
use ktn_enclosure_manager.Errors.{Outcome, ok, raise, is_locate_or_lookup}
use ktn_enclosure_manager.Ident.State.{Key, IdentRecord, values, expired}
use ktn_enclosure_manager.Ident.Host.{Host, Policy, Sys}
use ktn_enclosure_manager.Ident.Identify.{Request, identify, forget}

-- The call that both automatic clears make.
abbrev pub clear_as : Text → Request
clear_as user = record { on = false; user = user; duration_seconds = none; serial = none }

-- `{(r.enclosure_id, r.ses_slot): r for r in state.records}`
unfoldable pub index_records : List IdentRecord → Dict Key IdentRecord → Dict Key IdentRecord
unfolding put
index_records [] d = d
index_records (r ∷ rs) d = index_records rs (put (r.enclosure_id, r.ses_slot) r d)

module _ {W : Type 0} (h : Host W) where
  abbrev pub with_records : Dict Key IdentRecord → Sys W → Sys W
  with_records d s = record s { manager = record s.manager { records = d } }

  abbrev pub drop_record : Key → Sys W → Sys W
  drop_record key s = record s { manager = forget key s.manager }

  abbrev pub save : Sys W → Sys W
  save s = record s { world = h.save s.world (values s.manager.records) }

  -- `_load`
  unfoldable pub load : Sys W → Sys W
  unfolding index_records
  load s = elim (h.load s.world) [ none ↦ s | some rs ↦ with_records (index_records rs []) s ]

  -- One record of the loop of `reconcile`. An exception that is neither a `LocateError` nor a
  -- `LookupError` leaves `reconcile`.
  unfoldable pub reconcile_record :
      Dict Key Bool → ℕ → Key → IdentRecord → Sys W → Outcome (Unit {0}) × Sys W
  unfolding get expired
  reconcile_record observed now key r s = elim (get key observed) [
    | none ↦ (ok tt, drop_record key s)
    | some false ↦ (ok tt, drop_record key s)
    | some true ↦
        if expired r now
        then (let (o, s') =
              identify h r.enclosure_id r.ses_slot (clear_as (codes "system:reconcile")) s in
            elim o [
              | ok _ ↦ (ok tt, s')
              | raise e ↦ if is_locate_or_lookup e then (ok tt, s') else (raise e, s')
            ])
        else (ok tt, s)
  ]

  unfoldable pub reconcile_items :
      Dict Key Bool → ℕ → List (Key × IdentRecord) → Sys W → Outcome (Unit {0}) × Sys W
  unfolding reconcile_record
  reconcile_items observed now [] s = (ok tt, s)
  reconcile_items observed now ((key, r) ∷ items) s =
      let (o, s') = reconcile_record observed now key r s in
      elim o [ ok _ ↦ reconcile_items observed now items s' | raise e ↦ (raise e, s') ]

  -- `IdentManager.reconcile`; the list of external slots that it logs changes nothing.
  unfoldable pub reconcile : Dict Key Bool → Sys W → Outcome (Unit {0}) × Sys W
  unfolding load reconcile_items
  reconcile observed s =
      let s' = load s in
      let (o, s'') = reconcile_items observed (h.utc s'.world) s'.manager.records s' in
      elim o [ ok _ ↦ (ok tt, save s'') | raise e ↦ (raise e, s'') ]

module _ {W : Type 0} (h : Host W) (p : Policy) where
  -- The handler of a failed clear: `attempts` counts this failure.
  unfoldable pub clear_failed : ℕ → Key → ℕ → Sys W → Sys W
  unfolding put pop
  clear_failed now key attempts s =
      if leb p.clear_max_attempts attempts
      then save h (record s {
        manager = record s.manager {
          records = pop key s.manager.records;
          clear_failures = pop key s.manager.clear_failures;
        };
      })
      else record s {
        manager = record s.manager {
          clear_failures =
              put key (attempts, now + p.clear_backoff * 2 ^ (attempts - 1))
                s.manager.clear_failures;
        };
      }

  -- `self._clear_failures.get(key, (0, now))`
  abbrev pub failures_of : ℕ → Key → Sys W → ℕ × ℕ
  failures_of now key s = elim (get key s.manager.clear_failures) [ none ↦ (0, now) | some f ↦ f ]

  -- One record of the loop of `_tick`.
  unfoldable pub tick_record : ℕ → Key → IdentRecord → Sys W → Outcome (Unit {0}) × Sys W
  unfolding get expired clear_failed
  tick_record now key r s =
      if expired r now
      then (let (attempts, retry_at) = failures_of now key s in
          if ltb now retry_at
          then (ok tt, s)
          else (let (o, s') =
                identify h r.enclosure_id r.ses_slot (clear_as (codes "system:timer")) s in
              elim o [
                | ok _ ↦ (ok tt, s')
                | raise e ↦
                    if is_locate_or_lookup e
                    then (ok tt, clear_failed now key (attempts + 1) s')
                    else (raise e, s')
              ]))
      else (ok tt, s)

  unfoldable pub tick_items : ℕ → List (Key × IdentRecord) → Sys W → Outcome (Unit {0}) × Sys W
  unfolding tick_record
  tick_items now [] s = (ok tt, s)
  tick_items now ((key, r) ∷ items) s =
      let (o, s') = tick_record now key r s in
      elim o [ ok _ ↦ tick_items now items s' | raise e ↦ (raise e, s') ]

  -- One pass of `_tick` after its sleep: the loop swallows what the pass raises.
  unfoldable pub tick : Sys W → Sys W
  unfolding tick_items
  tick s = (tick_items (h.utc s.world) s.manager.records s).1

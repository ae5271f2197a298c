-- ===== src/Ident/Identify.antt =====
-- `IdentManager.identify`: guard, read, write, audit, and publish.
use ktn_enclosure_manager.Common.{
  ℕ, ℤ, ◌+◌, ◌*◌, Bool, true, false, not, ◌&&◌, Option, none, some, List, [], ◌∷◌, ◌++◌, any, suc_ℤ,
  if◌then◌else◌, ◌==◌, nat_eq, option_eq, bool_eq, list_eq, pair_eq, int_eq,
}
use ktn_enclosure_manager.Common.Dict.{put, pop}
use ktn_enclosure_manager.Common.Text.{Text, codes}
use ktn_enclosure_manager.Errors.{
  Outcome, ok, raise, locate_error, duration_not_offered, verification_failed,
}
use ktn_enclosure_manager.Audit.Entry.{AuditEntry, make_entry}
use ktn_enclosure_manager.Locate.Request.{int_value, str_value, validate_request}
use ktn_enclosure_manager.Ident.State.{Key, IdentRecord, Manager, values, origin_app}
use ktn_enclosure_manager.Ident.Host.{Host, Sys}

-- ALLOWED_DURATIONS
abbrev pub allowed_durations : List (Option ℕ)
allowed_durations = some 10 ∷ some 30 ∷ some 60 ∷ some 300 ∷ none ∷ []

unfoldable pub is_offered : Option ℕ → Bool
is_offered d = any (λ e. e == d) allowed_durations

-- One second as a `timedelta`, in microseconds.
abbrev pub second : ℕ
second = 1_000_000

-- `(now + timedelta(seconds=d)) if d else None`
abbrev pub expiry : ℕ → Option ℕ → Option ℕ
expiry now none = none
expiry now (some d) = if d == 0 then none else some (now + d * second)

-- The atomic updates of the dictionaries that a concurrent `describe` can observe between.
abbrev pub remember : Key → IdentRecord → Manager → Manager
remember key r m = record m { records = put key r m.records }

abbrev pub forget : Key → Manager → Manager
forget key m = record m { records = pop key m.records }

abbrev pub stamp : Key → ℕ → Bool → Manager → Manager
stamp key at on m = record m { last_write = put key (at, on) m.last_write }

abbrev pub clear_retry : Key → Manager → Manager
clear_retry key m = record m { clear_failures = pop key m.clear_failures }

-- The publication of a verified clear: the stamp first, then the record goes.
unfoldable pub off_updates : Key → ℕ → List (Manager → Manager)
off_updates key at = stamp key at false ∷ forget key ∷ []

-- The publication of a verified light: the record first, then the stamp.
unfoldable pub on_updates : Key → IdentRecord → ℕ → List (Manager → Manager)
on_updates key r at = remember key r ∷ stamp key at true ∷ []

unfoldable pub apply_all : List (Manager → Manager) → Manager → Manager
apply_all [] m = m
apply_all (u ∷ us) m = apply_all us (u m)

-- The keyword arguments of a call.
pub record Request : Type 0 where
  pub on : Bool
  pub user : Text
  pub duration_seconds : Option ℕ
  pub serial : Option Text

abbrev pub flag : Bool → Text
flag b = if b then codes "1" else codes "0"

-- The arguments of `self.audit.record` for one write.
unfoldable pub audit_call : Key → Request → Bool → Option Bool → Text → Option Text → AuditEntry
audit_call key q previous result verification detail = record {
  timestamp = 0;
  user = q.user;
  enclosure = key.0;
  bay = some (suc_ℤ key.1);
  ses_slot = some key.1;
  serial = q.serial;
  operation = if q.on then codes "IDENT_ON" else codes "IDENT_OFF";
  previous = some (flag previous);
  result = elim result [ none ↦ none | some b ↦ some (flag b) ];
  verification = verification;
  detail = detail;
}

module _ {W : Type 0} (h : Host W) where
  -- `self.audit.record(...)`
  unfoldable pub audit : AuditEntry → Sys W → Sys W
  unfolding make_entry
  audit call s = record s { trail = s.trail ++ make_entry (h.utc s.world) call ∷ [] }

  unfoldable pub new_record : Key → Request → ℕ → IdentRecord
  new_record key q now = record {
    enclosure_id = key.0;
    ses_slot = key.1;
    created_by = q.user;
    created_at = now;
    expires_at = expiry now q.duration_seconds;
    origin = origin_app;
  }

  -- From the verified write on: the retry state goes, the dictionaries are published in the order
  -- of the branch, and the records are saved.
  unfoldable pub publish : Key → Request → Sys W → Outcome (Option IdentRecord) × Sys W
  unfolding off_updates on_updates apply_all new_record
  publish key q s =
      let m = clear_retry key s.manager in
      let r = new_record key q (h.utc s.world) in
      let m' =
        apply_all
          (if q.on
            then on_updates key r (h.monotonic s.world)
            else off_updates key (h.monotonic s.world))
          m in
      (
        ok (if q.on then some r else none),
        record s { manager = m'; world = h.save s.world (values m'.records) },
      )

  -- The write has returned `verified`.
  unfoldable pub settle : Key → Request → Bool → Bool → Sys W → Outcome (Option IdentRecord) × Sys W
  unfolding audit audit_call publish
  settle key q previous verified s =
      let success = verified == q.on in
      let s' =
        audit
          (audit_call key q previous (some verified)
            (if success then codes "success" else codes "failed")
            (if success then none else some (codes "hardware did not honour the write")))
          s in
      if success then publish key q s' else (raise (locate_error verification_failed), s')

  -- Inside `async with self._lock_for(enclosure_id)`, after the first read.
  unfoldable pub attempt : Key → Request → Bool → Sys W → Outcome (Option IdentRecord) × Sys W
  unfolding audit audit_call settle
  attempt key q previous s =
      let (r, w) = h.write s.world key.0 key.1 q.on in
      elim r [
        | ok verified ↦ settle key q previous verified (record s { world = w })
        | raise e ↦ (
          raise e,
          audit (audit_call key q previous none (codes "error") (some (h.message e)))
              (record s { world = w }),
        )
      ]

  unfoldable pub locked : Key → Request → Sys W → Outcome (Option IdentRecord) × Sys W
  unfolding attempt
  locked key q s =
      let (r, w) = h.read s.world key.0 key.1 in
      elim r [
        | ok previous ↦ attempt key q previous (record s { world = w })
        | raise e ↦ (raise e, record s { world = w })
      ]

  -- `IdentManager.identify`
  unfoldable pub identify : Text → ℤ → Request → Sys W → Outcome (Option IdentRecord) × Sys W
  unfolding is_offered locked
  identify enclosure_id ses_slot q s =
      elim (validate_request (str_value enclosure_id) (int_value ses_slot)) [
        | ok key ↦
            if q.on && not (is_offered q.duration_seconds)
            then (raise (locate_error duration_not_offered), s)
            else locked key q s
        | raise e ↦ (raise e, s)
      ]

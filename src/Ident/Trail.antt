-- ===== src/Ident/Trail.antt =====
-- The audit trail of `identify`: one entry for each attempted write, raised or not.
use ktn_enclosure_manager.Common.{
  ℤ, ◌≡◌, refl, Bool, false, Option, some, [], ◌∷◌, ◌++◌, ◌==◌, list_eq, nat_eq, bool_eq,
  if◌then◌else◌, inl, inr, not, ◌&&◌, Bool-cases,
}
use ktn_enclosure_manager.Common.Text.{Text, codes}
use ktn_enclosure_manager.Errors.{Outcome, ok, Outcome-cases, is_ok}
use ktn_enclosure_manager.Audit.Entry.{AuditEntry, make_entry}
use ktn_enclosure_manager.Locate.Request.{int_value, str_value, validate_request}
use ktn_enclosure_manager.Ident.State.{Key, IdentRecord}
use ktn_enclosure_manager.Ident.Host.{Host, Sys}
use ktn_enclosure_manager.Ident.Identify.{
  Request, is_offered, audit_call, audit, publish, settle, attempt, locked, identify,
}

-- The entry names the user, the bay and the operation, and says success exactly when the call
-- returned.
pub record Describes (key : Key) (q : Request) (returned : Bool) (e : AuditEntry) : Type 0 where
  pub by : e.user ≡ q.user
  pub of_enclosure : e.enclosure ≡ key.0
  pub of_slot : e.ses_slot ≡ some key.1
  pub operation : e.operation ≡ (if q.on then codes "IDENT_ON" else codes "IDENT_OFF")
  pub verdict : (e.verification == codes "success") ≡ returned

module _ {W : Type 0} (h : Host W) where
  abbrev Audited : Key → Request → Sys W → Outcome (Option IdentRecord) × Sys W → Type 0
  Audited key q s res =
      (e : AuditEntry) × (res.1.trail ≡ s.trail ++ e ∷ []) × Describes key q (is_ok res.0) e

  settle_audits :
      (key : Key) (q : Request) (previous verified : Bool) (s : Sys W)
      → Audited key q s (settle h key q previous verified s)
  unfolding settle audit audit_call make_entry publish
  settle_audits key q previous verified s = elim (Bool-cases (verified == q.on)) [
    | inl y ↦
        rw (y, settle)
          (
            _,
            refl,
            record {
              by = refl;
              of_enclosure = refl;
              of_slot = refl;
              operation = refl;
              verdict = refl;
            },
          )
    | inr n ↦
        rw (n, settle)
          (
            _,
            refl,
            record {
              by = refl;
              of_enclosure = refl;
              of_slot = refl;
              operation = refl;
              verdict = refl;
            },
          )
  ]

  attempt_audits :
      (key : Key) (q : Request) (previous : Bool) (s : Sys W)
      → Audited key q s (attempt h key q previous s)
  unfolding attempt audit audit_call make_entry
  attempt_audits key q previous s = elim (Outcome-cases (h.write s.world key.0 key.1 q.on).0) [
    | inl (v, y) ↦
        rw (y, attempt)
          (settle_audits key q previous v
            (record s { world = (h.write s.world key.0 key.1 q.on).1 }))
    | inr (e, n) ↦
        rw (n, attempt)
          (
            _,
            refl,
            record {
              by = refl;
              of_enclosure = refl;
              of_slot = refl;
              operation = refl;
              verdict = refl;
            },
          )
  ]

  -- Once the request is valid and the bay could be read, the write is attempted and exactly one
  -- entry is appended to the audit trail, also when the write raises: it names the user, the bay
  -- and the operation, and says success exactly when the call returns.
  pub identify_audits :
      (id : Text) (slot : ℤ) (q : Request) (s : Sys W) (key : Key) (previous : Bool)
      → validate_request (str_value id) (int_value slot) ≡ ok key
      → (q.on && not (is_offered q.duration_seconds)) ≡ false
      → (h.read s.world key.0 key.1).0 ≡ ok previous
      → (e : AuditEntry) × ((identify h id slot q s).1.trail ≡ s.trail ++ e ∷ [])
        × Describes key q (is_ok (identify h id slot q s).0) e
  unfolding identify locked
  identify_audits id slot q s key previous v offered r =
      rw (v, identify)
        (rw offered (
          rw (r, locked)
            (attempt_audits key q previous (record s { world = (h.read s.world key.0 key.1).1 }))))

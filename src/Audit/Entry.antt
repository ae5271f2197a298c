-- ===== src/Audit/Entry.antt =====
-- What `AuditLog.record` makes of a call: `AuditEntry` of backend/ktnmgr/models.py with the
-- detail scrubbed.
use ktn_enclosure_manager.Common.{
  ℕ, ℤ, Bool, Option, none, some, List, [], ◌∷◌, any, take, if◌then◌else◌,
}
use ktn_enclosure_manager.Common.Text.{Text, codes, lower, contains}

pub record AuditEntry : Type 0 where
  pub timestamp : ℕ
  pub user : Text
  pub enclosure : Text
  pub bay : Option ℤ
  pub ses_slot : Option ℤ
  pub serial : Option Text
  pub operation : Text
  pub previous : Option Text
  pub result : Option Text
  pub verification : Text
  pub detail : Option Text

-- `_FORBIDDEN`
abbrev pub forbidden : List Text
forbidden =
    codes "api_key"
    ∷ codes "apikey"
    ∷ codes "password"
    ∷ codes "passwd"
    ∷ codes "secret"
    ∷ codes "token"
    ∷ codes "session"
    ∷ []

abbrev pub redaction : Text
redaction = codes "[redacted: detail mentioned a credential field]"

unfoldable pub mentions_credential : Text → Bool
unfolding lower contains
mentions_credential detail = let lowered = lower detail in any (λ w. contains w lowered) forbidden

-- `AuditLog._scrub`
unfoldable pub scrub : Option Text → Option Text
unfolding mentions_credential
scrub none = none
scrub (some []) = some []
scrub (some (c ∷ s)) =
    if mentions_credential (c ∷ s) then some redaction else some (take 500 (c ∷ s))

-- The entry that `AuditLog.record` builds at the time `now`.
unfoldable pub make_entry : ℕ → AuditEntry → AuditEntry
unfolding scrub
make_entry now call = record call { timestamp = now; detail = scrub call.detail }

-- ===== src/Ident/State.antt =====
-- The records of `IdentManager`, its three dictionaries, and `describe`.
-- A `datetime` is a number of microseconds, a monotonic instant a number of clock ticks.
use ktn_enclosure_manager.Common.{
  ℕ, ℤ, Bool, true, false, Option, none, some, List, [], ◌∷◌, leb, if◌then◌else◌, list_eq, nat_eq,
  pair_eq, int_eq,
}
use ktn_enclosure_manager.Common.Dict.{Dict, get}
use ktn_enclosure_manager.Common.Text.{Text, codes, lower}

-- (enclosure_id, ses_slot)
abbrev pub Key : Type 0
Key = Text × ℤ

abbrev pub origin_app : Text
origin_app = codes "app"

abbrev pub origin_external : Text
origin_external = codes "external"

pub record IdentRecord : Type 0 where
  pub enclosure_id : Text
  pub ses_slot : ℤ
  pub created_by : Text
  pub created_at : ℕ
  pub expires_at : Option ℕ
  pub origin : Text

-- `IdentRecord.expired`
unfoldable pub expired : IdentRecord → ℕ → Bool
expired r now = elim r.expires_at [ none ↦ false | some t ↦ leb t now ]

-- The instance attributes that change: `_records`, `_clear_failures` (failed attempts and the next
-- retry time) and `_last_write` (instant and state of the last verified write).
pub record Manager : Type 0 where
  pub records : Dict Key IdentRecord
  pub clear_failures : Dict Key (ℕ × ℕ)
  pub last_write : Dict Key (ℕ × Bool)

abbrev pub values {ℓ κ} : {K : Type ℓ} {V : Type κ} → Dict K V → List V
values [] = []
values ((k, v) ∷ d) = v ∷ values d

unfoldable pub record_for : Manager → Text → ℤ → Option IdentRecord
unfolding get lower
record_for m enclosure_id ses_slot = get (lower enclosure_id, ses_slot) m.records

-- An observation at or before our last verified write is superseded by that write.
unfoldable pub settled : Manager → Key → Bool → ℕ → Bool
unfolding get
settled m key locate_on observed_at = elim (get key m.last_write) [
  | none ↦ locate_on
  | some (written_at, written_state) ↦
      if leb observed_at written_at then written_state else locate_on
]

pub record Verdict : Type 0 where
  pub locate : Bool
  pub origin : Option Text
  pub expires_at : Option ℕ

abbrev pub dark : Verdict
dark = record { locate = false; origin = none; expires_at = none }

-- A light that no record explains.
abbrev pub foreign : Verdict
foreign = record { locate = true; origin = some origin_external; expires_at = none }

abbrev pub lit_by : Option IdentRecord → Verdict
lit_by none = foreign
lit_by (some r) = record { locate = true; origin = some r.origin; expires_at = r.expires_at }

-- `IdentManager.describe`, which runs in other threads: `_last_write` is read from the manager as it
-- is first, and `_records` from the manager as it is later.
unfoldable pub describe_over : Manager → Manager → Text → ℤ → Bool → ℕ → Verdict
unfolding settled record_for
describe_over m later enclosure_id ses_slot locate_on observed_at =
    if settled m (lower enclosure_id, ses_slot) locate_on observed_at
    then lit_by (record_for later enclosure_id ses_slot)
    else dark

-- A call that no update falls into.
unfoldable pub describe : Manager → Text → ℤ → Bool → ℕ → Verdict
unfolding describe_over
describe m = describe_over m m

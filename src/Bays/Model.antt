-- ===== src/Bays/Model.antt =====
-- `SlotHealth`, `ZfsState`, `ZfsInfo`, `SmartInfo` and `DiskIdentity` of backend/ktnmgr/models.py.
use ktn_enclosure_manager.Common.{ℕ, Bool, Option}
use ktn_enclosure_manager.Common.Text.{Text, codes}

pub data SlotHealth : Type 0 where
  healthy warning failed empty unknown : SlotHealth

-- `health.value`
abbrev pub health_value : SlotHealth → Text
health_value healthy = codes "ok"
health_value warning = codes "warning"
health_value failed = codes "failed"
health_value empty = codes "empty"
health_value unknown = codes "unknown"

pub data ZfsState : Type 0 where
  online degraded faulted offline unavail removed spare unknown_state : ZfsState

pub record ZfsInfo : Type 0 where
  pub pool : Option Text
  pub vdev : Option Text
  pub state : ZfsState
  pub read_errors : Option ℕ
  pub write_errors : Option ℕ
  pub checksum_errors : Option ℕ
  pub is_spare : Bool
  pub resilvering : Bool

-- Temperatures in whole degrees: no rule below looks at their fraction.
pub record SmartInfo : Type 0 where
  pub temperature_c : Option ℕ
  pub available : Bool
  pub over_temperature : Bool
  pub alert : Option Text

pub record DiskIdentity : Type 0 where
  pub serial : Option Text
  pub wwn : Option Text
  pub model : Option Text
  pub firmware : Option Text
  pub size_bytes : Option ℕ
  pub sas_address : Option Text
  pub transport : Option Text
  pub rotational : Option Bool

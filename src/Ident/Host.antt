-- ===== src/Ident/Host.antt =====
-- What `IdentManager` is given: a `LocateWriter`, the state file and the clocks.
use ktn_enclosure_manager.Common.{ℕ, ℤ, Bool, Option, List}
use ktn_enclosure_manager.Common.Text.{Text}
use ktn_enclosure_manager.Errors.{Outcome, Exception}
use ktn_enclosure_manager.Audit.Entry.{AuditEntry}
use ktn_enclosure_manager.Ident.State.{Manager, IdentRecord}

-- `W` is the world outside the process: the shelf, the state file and the time.
pub record Host (W : Type 0) : Type 0 where
  -- `LocateWriter.read` and `LocateWriter.write`, with the world that they leave
  pub read : W → Text → ℤ → Outcome Bool × W
  pub write : W → Text → ℤ → Bool → Outcome Bool × W
  -- `_save`: a failure to write the file is logged, and so shows in the world alone
  pub save : W → List IdentRecord → W
  -- the records of the state file; none if it is absent or unreadable
  pub load : W → Option (List IdentRecord)
  -- `datetime.now(UTC)` and `time.monotonic()`
  pub utc : W → ℕ
  pub monotonic : W → ℕ
  -- `f"{type(exc).__name__}: {exc}"`
  pub message : Exception → Text

-- The retry policy of the constructor, the backoff in microseconds.
pub record Policy : Type 0 where
  pub clear_max_attempts : ℕ
  pub clear_backoff : ℕ

-- The process and its world; `trail` has the audit entries in the order they were recorded.
pub record Sys (W : Type 0) : Type 0 where
  pub manager : Manager
  pub world : W
  pub trail : List AuditEntry

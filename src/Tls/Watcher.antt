-- ===== src/Tls/Watcher.antt =====
-- `TlsWatcher` of backend/ktnmgr/services/tls_watch.py. The files, the clock, SHA-256 and the parser
-- of certificates are parameters. Times are in milliseconds. The audit entry and the log line
-- before a restart are best-effort in the source, and the log lines are left out.
use ktn_enclosure_manager.Common.{
  ℕ, ◌+◌, ◌-◌, ◌*◌, ◌/◌, ℤ, pos, negsuc, Bool, true, false, Option, none, some, List, [], ◌∷◌, leb,
  ltb, if◌then◌else◌, ◌==◌, nat_eq, list_eq, option_eq, int_eq,
}
use ktn_enclosure_manager.Common.Text.{Text}

pub record Files (W : Type 0) : Type 0 where
  -- `read_bytes`, none for an `OSError`
  pub source : W → Option Text
  pub served : W → Option Text
  pub clock : W → ℕ
  -- `_not_after(served)`
  pub not_after : W → Option ℕ
  pub sha256 : Text → Text
  pub parses_as_certificate : Text → Bool

pub data Unreadable : Type 0 where
  no_certificate no_served_copy : Unreadable

pub record TlsWatcher : Type 0 where
  pub interval : ℕ
  pub settle : ℕ
  pub expires : Option ℕ
  pub reload_pending : Bool
  pub disabled_reason : Option Unreadable
  -- the source's hash, and when it was first seen
  pub changed : Option (Text × ℕ)
  pub unusable_hash : Option Text
  pub restarted : Bool
  pub warned_days : Option ℤ

-- `EXPIRY_WARNING_DAYS`
abbrev pub expiry_warning_days : ℕ
expiry_warning_days = 14

abbrev pub day : ℕ
day = 86400 * 1000

-- `(then - now) // 86400`, rounded down
unfoldable pub days_between : ℕ → ℕ → ℤ
days_between now then_ =
    if leb now then_ then pos ((then_ - now) / day) else negsuc ((now - then_ - 1) / day)

unfoldable pub days_left : TlsWatcher → ℕ → Option ℤ
unfolding days_between
days_left t now = elim (t.expires) [ none ↦ none | some n ↦ some (days_between now n) ]

-- `days > EXPIRY_WARNING_DAYS`
abbrev pub is_far : ℤ → Bool
is_far (pos n) = ltb expiry_warning_days n
is_far (negsuc n) = false

-- `None` while the certificate is readable
abbrev pub enabled : TlsWatcher → TlsWatcher
enabled t = record t { disabled_reason = none }

-- What a check ends with: the watcher, the seconds to wait, and whether it has called `restart`.
pub record Checked : Type 0 where
  pub watcher : TlsWatcher
  pub delay : ℕ
  pub restarts : Bool

abbrev pub forget_change : TlsWatcher → TlsWatcher
forget_change t = record t { changed = none; reload_pending = false }

unfoldable pub unreadable : Unreadable → TlsWatcher → Checked
unreadable reason t = record {
  watcher = forget_change (record t { disabled_reason = some reason });
  delay = t.interval;
  restarts = false;
}

module _ {W : Type 0} (f : Files W) where
  unfoldable pub refresh_expiry : TlsWatcher → W → TlsWatcher
  unfolding days_left
  refresh_expiry t w =
      let seen = record t { expires = f.not_after w } in
      elim (days_left seen (f.clock w)) [
        | none ↦ seen
        | some days ↦
            if is_far days
            then seen
            else if some days == seen.warned_days
            then seen
            else record seen { warned_days = some days }
      ]

  -- The end of `check`, for a usable certificate that is not the served one.
  unfoldable pub await_restart : Text → TlsWatcher → ℕ → Checked
  await_restart hash t now = elim (t.changed) [
    | none ↦ record {
      watcher = record t { changed = some (hash, now); reload_pending = true };
      delay = t.settle;
      restarts = false;
    }
    | some seen ↦
        if seen.0 == hash
        then if ltb now (t.settle + seen.1)
          then record { watcher = t; delay = t.settle + seen.1 - now; restarts = false }
          else if t.restarted
          then record { watcher = t; delay = t.interval; restarts = false }
          else record {
            watcher = record t { restarted = true };
            delay = t.interval;
            restarts = true;
          }
        else record {
          watcher = record t { changed = some (hash, now); reload_pending = true };
          delay = t.settle;
          restarts = false;
        }
  ]

  -- The comparison of the two files.
  unfoldable pub compare_copies : Text → Text → TlsWatcher → ℕ → Checked
  unfolding await_restart
  compare_copies source served t now =
      if f.sha256 source == f.sha256 served
      then record { watcher = forget_change t; delay = t.interval; restarts = false }
      else if f.parses_as_certificate source
      then await_restart (f.sha256 source) t now
      else record {
        watcher = forget_change (record t { unusable_hash = some (f.sha256 source) });
        delay = t.settle;
        restarts = false;
      }

  unfoldable pub check_certificate : TlsWatcher → W → Checked
  unfolding refresh_expiry unreadable compare_copies
  check_certificate t w =
      let refreshed = refresh_expiry t w in
      elim (f.source w) [
        | none ↦ unreadable no_certificate refreshed
        | some source ↦ elim (f.served w) [
          | none ↦ unreadable no_served_copy refreshed
          | some served ↦ compare_copies source served (enabled refreshed) (f.clock w)
        ]
      ]

  -- The checks at a sequence of moments: which of them restart, and the watcher after them.
  unfoldable pub check_all : TlsWatcher → List W → List Bool × TlsWatcher
  unfolding check_certificate
  check_all t [] = ([], t)
  check_all t (w ∷ ws) =
      let done = check_certificate t w in
      let rest = check_all done.watcher ws in (done.restarts ∷ rest.0, rest.1)

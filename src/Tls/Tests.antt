-- ===== src/Tls/Tests.antt =====
-- A renewal of a certificate whose texts stand for their own hashes.
use ktn_enclosure_manager.Common.{
  ℕ, arith, not, pos, negsuc, true, false, Option, none, some, List, [], ◌∷◌, ◌+◌, ◌≤◌, ◌≡◌, refl,
  ◌==◌, list_eq, nat_eq,
}
use ktn_enclosure_manager.Common.Text.{Text, codes}
use ktn_enclosure_manager.Tls.Watcher.{
  Files, TlsWatcher, days_between, check_certificate, check_all,
}
use ktn_enclosure_manager.Tls.History.{IsRenewed, StoodSince, restart_stood}
use ktn_enclosure_manager.Tls.Renewal.{count_true, renewal_restarts}

-- The time, and what is mounted; the text "half" does not parse.
abbrev World : Type 0
World = ℕ × Option Text

abbrev files : Files World
files = record {
  source = λ w. w.1;
  served = λ w. some (codes "old");
  clock = λ w. w.0;
  not_after = λ w. some 2000000000;
  sha256 = λ t. t;
  parses_as_certificate = λ t. not (t == codes "half");
}

abbrev watcher : TlsWatcher
watcher = record {
  interval = 60000;
  settle = 5000;
  expires = none;
  reload_pending = false;
  disabled_reason = none;
  changed = none;
  unusable_hash = none;
  restarted = false;
  warned_days = none;
}

days_test : (days_between 100 86400100 ≡ pos 1) × (days_between 100 99 ≡ negsuc 0)
unfolding days_between
days_test = (refl, refl)

-- Unreadable, half-written, new, too early, due, and done.
run_test :
    (check_all files watcher (
      (0, none)
      ∷ (1000, some (codes "half"))
      ∷ (2000, some (codes "new"))
      ∷ (6999, some (codes "new"))
      ∷ (7000, some (codes "new"))
      ∷ (99999, some (codes "new"))
      ∷ [])).0
    ≡ false ∷ false ∷ false ∷ false ∷ true ∷ false ∷ []
unfolding check_all
run_test = refl

-- New, taken back, and new again before the check at 7000.
abbrev earlier : List World
earlier =
    (0, some (codes "new"))
    ∷ (1000, some (codes "old"))
    ∷ (2000, some (codes "new"))
    ∷ (6999, some (codes "new"))
    ∷ []

restart_test :
    (check_certificate files
      (check_all files watcher earlier).1
      (7000, some (codes "new"))).restarts
    ≡ true
unfolding check_all
restart_test = refl

restart_stood_example :
    (hash : Text) × (first : ℕ) × IsRenewed files hash (7000, some (codes "new"))
    × StoodSince files earlier hash first
    × (5000 + first ≤ 7000)
restart_stood_example =
    restart_stood files watcher earlier (7000, some (codes "new")) refl restart_test

renewal_restarts_example :
    count_true
      (check_all files watcher ((2000, some (codes "new")) ∷ (9000, some (codes "new")) ∷ [])).0
    ≡ 1
renewal_restarts_example =
    renewal_restarts files watcher (2000, some (codes "new")) (9000, some (codes "new"))
      (codes "new") (codes "old") refl refl refl refl refl refl refl
      (λ other first h. absurd (cc h)) (omega arith)

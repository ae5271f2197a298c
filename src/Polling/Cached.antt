-- ===== src/Polling/Cached.antt =====
-- `Cached` and `_freshness` of backend/ktnmgr/services/state.py. Both clocks are numbers, the
-- monotonic one in milliseconds.
use ktn_enclosure_manager.Common.{ℕ, ◌+◌, Bool, Option, none, some, leb}
use ktn_enclosure_manager.Common.Text.{Text}

-- `stamp` is `_monotonic`.
pub record Cached {ℓ} (A : Type ℓ) : Type ℓ where
  pub value : A
  pub updated_at : Option ℕ
  pub last_error : Option Text
  pub last_attempt_at : Option ℕ
  pub stamp : ℕ
  pub observed_monotonic : ℕ

-- `time.monotonic()` and `datetime.now(UTC)`
pub record Clock {ℓ} (W : Type ℓ) : Type ℓ where
  pub monotonic : W → ℕ
  pub utc : W → ℕ

pub record Freshness : Type 0 where
  pub interval_seconds : ℕ
  pub last_success : Option ℕ
  pub last_attempt : Option ℕ
  pub last_error : Option Text

module _ {ℓ} {A : Type ℓ} where
  -- `Cached(value=value)`
  abbrev pub unpolled : A → Cached A
  unpolled value = record {
    value = value;
    updated_at = none;
    last_error = none;
    last_attempt_at = none;
    stamp = 0;
    observed_monotonic = 0;
  }

  -- The difference of the clock and the stamp reaches the interval.
  unfoldable pub due : ℕ → Cached A → ℕ → Bool
  due interval c now = leb (c.stamp + interval) now

  unfoldable pub freshness : Cached A → ℕ → Freshness
  freshness c interval = record {
    interval_seconds = interval;
    last_success = c.updated_at;
    last_attempt = c.last_attempt_at;
    last_error = c.last_error;
  }

module _ {ℓ κ} {W : Type ℓ} {A : Type κ} (k : Clock W) (w : W) where
  unfoldable pub succeed : A → Option ℕ → Cached A → Cached A
  succeed value observed_at c = record {
    value = value;
    updated_at = some (k.utc w);
    last_error = none;
    last_attempt_at = some (k.utc w);
    stamp = k.monotonic w;
    observed_monotonic = elim observed_at [ none ↦ k.monotonic w | some t ↦ t ];
  }

  unfoldable pub fail : Text → Cached A → Cached A
  fail error c = record c {
    last_attempt_at = some (k.utc w);
    last_error = some error;
    stamp = k.monotonic w;
  }

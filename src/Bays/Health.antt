-- ===== src/Bays/Health.antt =====
-- `_enclosure_asserts_failure` and `classify` of backend/ktnmgr/services/state.py.
use ktn_enclosure_manager.Common.{
  ℕ, ◌≡◌, ◌↔◌, Bool, true, false, not, ◌&&◌, ◌||◌, Option, none, some, ltb, if◌then◌else◌, ◌==◌,
  list_eq, nat_eq, arith, ==→≡,
}
use ktn_enclosure_manager.Common.Text.{Text, codes, strip, lower}
use ktn_enclosure_manager.Bays.Model.{
  SlotHealth, healthy, warning, failed, empty, unknown, ZfsState, degraded, faulted, unavail,
  removed, ZfsInfo, SmartInfo,
}

-- `(status or "").strip().lower()`
unfoldable pub normalised : Text → Text
unfolding strip lower
normalised status = lower (strip status)

unfoldable pub enclosure_asserts_failure : Text → Bool → Bool
unfolding normalised
enclosure_asserts_failure status fault =
    fault
    || ((normalised status == codes "critical") || (normalised status == codes "unrecoverable"))

-- `zfs.state in (FAULTED, UNAVAIL, REMOVED)`
abbrev pub is_dead : ZfsState → Bool
is_dead faulted = true
is_dead unavail = true
is_dead removed = true
is_dead _ = false

abbrev pub is_degraded : ZfsState → Bool
is_degraded degraded = true
is_degraded _ = false

-- A count that is present and not 0.
abbrev pub is_nonzero : Option ℕ → Bool
is_nonzero none = false
is_nonzero (some n) = ltb 0 n

abbrev pub counts_errors : ZfsInfo → Bool
counts_errors z =
    is_nonzero z.read_errors || (is_nonzero z.write_errors || is_nonzero z.checksum_errors)

abbrev pub warns : Text → Bool
warns n = (n == codes "noncritical") || ((n == codes "non-critical") || (n == codes "warning"))

-- The composition always passes a `SmartInfo`, so `smart` is never absent.
unfoldable pub classify : Text → Bool → Bool → ZfsInfo → SmartInfo → SlotHealth
unfolding enclosure_asserts_failure normalised
classify status fault has_device zfs smart =
    if enclosure_asserts_failure status fault
    then failed
    else if not has_device
    then empty
    else if is_dead zfs.state
    then failed
    else if is_degraded zfs.state || zfs.resilvering
    then warning
    else if counts_errors zfs
    then warning
    else if smart.over_temperature
    then warning
    else if warns (normalised status)
    then warning
    else if normalised status == codes "ok"
    then healthy
    else unknown

module _ (asserts present dead weak errors hot warned fine : Bool) where
  -- The order in which the signs count.
  abbrev ladder : SlotHealth
  ladder =
      if asserts
      then failed
      else if not present
      then empty
      else if dead
      then failed
      else if weak
      then warning
      else if errors
      then warning
      else if hot
      then warning
      else if warned
      then warning
      else if fine
      then healthy
      else unknown

  ladder_failed : (ladder ≡ failed) ↔ ((asserts || (present && dead)) ≡ true)
  ladder_failed = ground arith

  ladder_healthy :
      ladder ≡ healthy
      → (asserts ≡ false)
        × (present ≡ true)
        × (dead ≡ false)
        × (weak ≡ false)
        × (errors ≡ false)
        × (hot ≡ false)
        × (fine ≡ true)
  ladder_healthy h = ground arith

-- A bay is failed exactly when the shelf says so, or there is a device and ZFS has lost it: no
-- other sign, a reading as empty included, hides either of the two or stands in for them.
pub classify_failed :
    (status : Text) (fault has_device : Bool) (zfs : ZfsInfo) (smart : SmartInfo)
    → (classify status fault has_device zfs smart ≡ failed)
      ↔ ((enclosure_asserts_failure status fault || (has_device && is_dead zfs.state)) ≡ true)
unfolding classify
classify_failed status fault has_device zfs smart =
    ladder_failed (enclosure_asserts_failure status fault) has_device (is_dead zfs.state)
      (is_degraded zfs.state || zfs.resilvering) (counts_errors zfs) smart.over_temperature
      (warns (normalised status)) (normalised status == codes "ok")

no_fault :
    (status : Text) (fault : Bool) → enclosure_asserts_failure status fault ≡ false → fault ≡ false
unfolding enclosure_asserts_failure
no_fault status fault q = ground arith

-- What a bay shows no sign of when it is healthy.
pub record Clean (status : Text) (zfs : ZfsInfo) (smart : SmartInfo) : Type 0 where
  pub says_ok : normalised status ≡ codes "ok"
  pub alive : is_dead zfs.state ≡ false
  pub whole : (is_degraded zfs.state || zfs.resilvering) ≡ false
  pub error_free : counts_errors zfs ≡ false
  pub cool : smart.over_temperature ≡ false

-- A bay that is shown healthy has a device, no fault, the status ok, a ZFS state that is neither
-- lost nor degraded, no resilvering, no error counts and no temperature alert.
pub classify_healthy :
    (status : Text) (fault has_device : Bool) (zfs : ZfsInfo) (smart : SmartInfo)
    → classify status fault has_device zfs smart ≡ healthy
    → (fault ≡ false) × (has_device ≡ true) × Clean status zfs smart
unfolding classify
classify_healthy status fault has_device zfs smart h =
    let l =
      ladder_healthy (enclosure_asserts_failure status fault) has_device (is_dead zfs.state)
        (is_degraded zfs.state || zfs.resilvering) (counts_errors zfs) smart.over_temperature
        (warns (normalised status)) (normalised status == codes "ok") h in
    let (quiet, present, alive, whole, error_free, cool, fine) = l in
    (
      no_fault status fault quiet,
      present,
      record {
        says_ok = ==→≡ (normalised status) (codes "ok") fine;
        alive = alive;
        whole = whole;
        error_free = error_free;
        cool = cool;
      },
    )

-- ===== src/Polling/Service.antt =====
-- The state of `StateService` of backend/ktnmgr/services/state.py, and `poll_hardware`.
use ktn_enclosure_manager.Common.{
  ℕ, Bool, true, false, ◌||◌, none, some, List, [], ◌∷◌, any, keep, if◌then◌else◌, ◌==◌, nat_eq,
  list_eq,
}
use ktn_enclosure_manager.Common.Dict.{Dict, put}
use ktn_enclosure_manager.Common.Text.{Text, lower}
use ktn_enclosure_manager.Errors.{Exception, os_error, Outcome, ok, raise}
use ktn_enclosure_manager.Bays.Compose.{SlotState}
use ktn_enclosure_manager.Bays.DiskReader.{Cache}
use ktn_enclosure_manager.Bays.Model.{ZfsInfo, SmartInfo, DiskIdentity}
use ktn_enclosure_manager.Correlate.Json.{Value}
use ktn_enclosure_manager.Ses.Join.{ChassisTelemetry}
use ktn_enclosure_manager.Sysfs.Scan.{EnclosureRef, Roots, discover, read_slots}
use ktn_enclosure_manager.Sysfs.Tree.{Kernel}
use ktn_enclosure_manager.Polling.Cached.{Cached, Clock, succeed, fail}

-- The caches, `_sas_by_slot`, and the cache of the disk reader.
pub record Service : Type 0 where
  pub enclosures : Cached (List EnclosureRef)
  pub slots : Cached (Dict Text (List SlotState))
  pub zfs : Cached (Dict Text ZfsInfo)
  pub remote_disks : Cached (Dict Text DiskIdentity)
  pub smart : Cached (Dict Text SmartInfo)
  pub chassis : Cached (Dict Text ChassisTelemetry)
  pub system_info : Cached Value
  pub sas_by_slot : Dict Text (Dict ℕ Text)
  pub disk_cache : Cache

-- The backend under the enclosure lock, which may raise an `OSError` of its own.
pub record Shelf (W : Type 0) : Type 0 where
  pub discover : W → Outcome (List EnclosureRef) × W
  pub read_slots : EnclosureRef → W → Outcome (List SlotState) × W

-- `SysfsEnclosureBackend` as it reads one state of the kernel.
unfoldable pub sysfs_shelf : {W : Type 0} → Kernel W → Roots → Shelf W
unfolding discover read_slots
sysfs_shelf k roots = record {
  discover = λ w. (ok (discover k w roots), w);
  read_slots = λ ref w. (ok (read_slots k w ref), w);
}

abbrev pub is_os_error : Exception → Bool
is_os_error os_error = true
is_os_error _ = false

-- `_allowed`; the allowlist holds lower-case ids.
unfoldable pub is_allowed : List Text → Text → Bool
unfolding lower
is_allowed allowlist logical_id = (allowlist == []) || any (λ a. a == lower logical_id) allowlist

module _ {W : Type 0} (k : Clock W) (shelf : Shelf W) (message : Exception → Text) where
  unfoldable pub read_all :
      List EnclosureRef → Dict Text (List SlotState) → W → Outcome (Dict Text (List SlotState)) × W
  unfolding put
  read_all [] slots w = (ok slots, w)
  read_all (ref ∷ refs) slots w =
      let (o, w') = shelf.read_slots ref w in
      elim o [
        | ok found ↦ read_all refs (put ref.logical_id found slots) w'
        | raise e ↦ (raise e, w')
      ]

  -- `discover` has answered.
  unfoldable pub store_slots :
      List EnclosureRef → ℕ → Service → W → Outcome (Unit {0}) × (Service × W)
  unfolding read_all succeed fail
  store_slots found observed_at s w =
      let s' = record s { enclosures = succeed k w found none s.enclosures } in
      let (o, w') = read_all found [] w in
      elim o [
        | ok slots ↦
            (ok tt, (record s' { slots = succeed k w' slots (some observed_at) s.slots }, w'))
        | raise e ↦
            if is_os_error e
            then (ok tt, (record s' { slots = fail k w' (message e) s.slots }, w'))
            else (raise e, (s', w'))
      ]

  unfoldable pub poll_hardware : List Text → Service → W → Outcome (Unit {0}) × (Service × W)
  unfolding is_allowed store_slots fail
  poll_hardware allowlist s w =
      let (o, w') = shelf.discover w in
      elim o [
        | ok discovered ↦
            store_slots (keep (λ (e : EnclosureRef). is_allowed allowlist e.logical_id) discovered)
              (k.monotonic w) s w'
        | raise e ↦
            if is_os_error e
            then (
              ok tt,
              (
                record s {
                  slots = fail k w' (message e) s.slots;
                  enclosures = fail k w' (message e) s.enclosures;
                },
                w',
              ),
            )
            else (raise e, (s, w'))
      ]

-- ===== src/Bays/Compose.antt =====
-- `_identity_conflict` and the loop body of `_compose_bays` of backend/ktnmgr/services/state.py,
-- and `merge_identity` of backend/ktnmgr/truenas/correlate.py.
use ktn_enclosure_manager.Common.{
  ℕ, ℤ, Bool, true, false, not, ◌&&◌, Option, none, some, [], ◌∷◌, is_some, if◌then◌else◌, ◌==◌,
  list_eq, nat_eq, int_eq,
}
use ktn_enclosure_manager.Common.Dict.{Dict, get}
use ktn_enclosure_manager.Common.Text.{Text, strip, lower}
use ktn_enclosure_manager.Ident.State.{Manager, Verdict, describe}
use ktn_enclosure_manager.Bays.Model.{SlotHealth, unknown_state, ZfsInfo, SmartInfo, DiskIdentity}
use ktn_enclosure_manager.Bays.Health.{classify}

-- What `in (None, "")` finds.
unfoldable pub is_blank : Option Text → Bool
is_blank none = true
is_blank (some []) = true
is_blank (some (c ∷ cs)) = false

-- Two texts that are present differ, up to blanks and case.
unfoldable pub differ : Text → Text → Bool
unfolding strip lower
differ a b = not (lower (strip a) == lower (strip b))

abbrev pub or_empty : Option Text → Text
or_empty none = []
or_empty (some t) = t

unfoldable pub identity_conflict : DiskIdentity → DiskIdentity → Bool
unfolding is_blank differ
identity_conflict local remote =
    if not (is_blank local.wwn) && not (is_blank remote.wwn)
    then differ (or_empty local.wwn) (or_empty remote.wwn)
    else if not (is_blank local.serial) && not (is_blank remote.serial)
    then differ (or_empty local.serial) (or_empty remote.serial)
    else false

-- One round of the loop of `merge_identity`, for a text and for any other field.
unfoldable pub fill_text : Option Text → Option Text → Option Text
unfolding is_blank
fill_text local remote = if is_blank local && not (is_blank remote) then remote else local

abbrev pub fill {ℓ} : {A : Type ℓ} → Option A → Option A → Option A
fill none remote = remote
fill (some a) remote = some a

unfoldable pub merge_identity : DiskIdentity → Option DiskIdentity → DiskIdentity
unfolding fill_text
merge_identity local none = local
merge_identity local (some remote) = record local {
  serial = fill_text local.serial remote.serial;
  wwn = fill_text local.wwn remote.wwn;
  model = fill_text local.model remote.model;
  firmware = fill_text local.firmware remote.firmware;
  size_bytes = fill local.size_bytes remote.size_bytes;
  transport = fill_text local.transport remote.transport;
  rotational = fill local.rotational remote.rotational;
}

-- `SlotState`
pub record SlotState : Type 0 where
  pub ses_slot : ℤ
  pub display_bay : ℤ
  pub status : Text
  pub power_status : Option Text
  pub locate : Bool
  pub fault : Bool
  pub active : Option Bool
  pub block_device : Option Text
  pub sysfs_path : Text

-- What `DiskInfoReader.read` gives: `DiskIdentityUnreadable`, or an identity. The reader keeps
-- some identities in its cache and then returns the very object that it keeps.
pub data Reading : Type 0 where
  unreadable : Reading
  identity : Bool → DiskIdentity → Reading

-- The caches that the composition joins, by device name, and the SAS addresses, by slot.
pub record Caches : Type 0 where
  pub remote_disks : Dict Text DiskIdentity
  pub zfs : Dict Text ZfsInfo
  pub smart : Dict Text SmartInfo
  pub sas_addresses : Dict ℤ Text
  pub observed : ℕ

-- `device` without its prefix `/dev/`; `sysfs_path` is left out.
pub record Bay : Type 0 where
  pub enclosure_id : Text
  pub ses_slot : ℤ
  pub display_bay : ℤ
  pub device : Option Text
  pub health : SlotHealth
  pub status : Text
  pub power_status : Option Text
  pub fault : Bool
  pub ident : Verdict
  pub disk : DiskIdentity
  pub zfs : ZfsInfo
  pub smart : SmartInfo

abbrev pub no_identity : DiskIdentity
no_identity = record {
  serial = none;
  wwn = none;
  model = none;
  firmware = none;
  size_bytes = none;
  sas_address = none;
  transport = none;
  rotational = none;
}

abbrev pub no_zfs : ZfsInfo
no_zfs = record {
  pool = none;
  vdev = none;
  state = unknown_state;
  read_errors = none;
  write_errors = none;
  checksum_errors = none;
  is_spare = false;
  resilvering = false;
}

abbrev pub no_smart : SmartInfo
no_smart = record {
  temperature_c = none;
  available = false;
  over_temperature = false;
  alert = none;
}

abbrev pub local_of : Reading → DiskIdentity
local_of unreadable = no_identity
local_of (identity kept d) = d

abbrev pub is_identified : Reading → Bool
is_identified unreadable = false
is_identified (identity kept d) = true

abbrev pub is_kept : Reading → Bool
is_kept unreadable = false
is_kept (identity kept d) = kept

abbrev pub or_else {ℓ} : {A : Type ℓ} → A → Option A → A
or_else a none = a
or_else a (some x) = x

-- `remote is not None and _identity_conflict(local, remote)`
unfoldable pub is_swapped : DiskIdentity → Option DiskIdentity → Bool
unfolding identity_conflict
is_swapped local none = false
is_swapped local (some remote) = identity_conflict local remote

-- The bay, whether its occupant is identified, and the object that the disk reader keeps: giving
-- the SAS address to an identity that was not copied gives it to that object as well.
pub record Composed : Type 0 where
  pub bay : Bay
  pub identified : Bool
  pub kept : DiskIdentity

unfoldable pub compose_bay : Manager → Text → Caches → SlotState → Reading → Composed
unfolding get is_swapped merge_identity classify describe
compose_bay m enclosure_id c slot reading =
    let name = or_empty slot.block_device in
    let local = local_of reading in
    let identified = is_identified reading in
    let remote = get name c.remote_disks in
    let swapped = is_swapped local remote in
    let zfs = if swapped then no_zfs else or_else no_zfs (get name c.zfs) in
    let smart = if swapped then no_smart else or_else no_smart (get name c.smart) in
    let source = if identified && not swapped then remote else none in
    let merged = merge_identity local source in
    let disk =
      if identified && not swapped
      then record merged { sas_address = get slot.ses_slot c.sas_addresses }
      else merged in
    record {
      bay = record {
        enclosure_id = enclosure_id;
        ses_slot = slot.ses_slot;
        display_bay = slot.display_bay;
        device = if is_blank slot.block_device then none else slot.block_device;
        health = classify slot.status slot.fault (not (is_blank slot.block_device)) zfs smart;
        status = slot.status;
        power_status = slot.power_status;
        fault = slot.fault;
        ident = describe m enclosure_id slot.ses_slot slot.locate c.observed;
        disk = disk;
        zfs = zfs;
        smart = smart;
      };
      identified = identified;
      kept = if is_kept reading && not (is_some source) then disk else local;
    }

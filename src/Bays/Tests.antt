-- ===== src/Bays/Tests.antt =====
-- A bay whose disk was replaced, before and after TrueNAS knows.
use ktn_enclosure_manager.Common.{
  pos, ◌≡◌, refl, true, false, none, some, [], ◌∷◌, list_eq, nat_eq, int_eq,
}
use ktn_enclosure_manager.Common.Dict.{Dict, get}
use ktn_enclosure_manager.Common.Text.{Text, codes}
use ktn_enclosure_manager.Ident.State.{Manager}
use ktn_enclosure_manager.Bays.Model.{healthy, faulted, ZfsInfo, DiskIdentity}
use ktn_enclosure_manager.Bays.Compose.{
  SlotState, identity, Caches, no_identity, no_zfs, compose_bay, is_swapped,
}
use ktn_enclosure_manager.Bays.DiskReader.{
  Attributes, Cache, IsHonest, normalise_wwn, read_disk, read_disk-IsHonest,
}
use ktn_enclosure_manager.Bays.Masking.{
  with_records, swapped_disk_shows_nothing, swap_keeps_stale_address,
}

abbrev manager : Manager
manager = record { records = []; clear_failures = []; last_write = [] }

abbrev shelf : Text
shelf = codes "0x50060480aabbcc00"

abbrev sdf : Text
sdf = codes "sdf"

abbrev disk_with : Text → DiskIdentity
disk_with serial = record no_identity { serial = some serial }

abbrev fresh : DiskIdentity
fresh = disk_with (codes "NEW1")

abbrev slot : SlotState
slot = record {
  ses_slot = pos 7;
  display_bay = pos 8;
  status = codes "OK";
  power_status = none;
  locate = false;
  fault = false;
  active = none;
  block_device = some sdf;
  sysfs_path = codes "/sys/class/enclosure/1:0:15:0/7";
}

abbrev broken : SlotState
broken = record slot { fault = true; block_device = none }

abbrev dead : ZfsInfo
dead = record no_zfs { pool = some (codes "tank"); state = faulted }

abbrev caches : Caches
caches = record {
  remote_disks = [];
  zfs = (sdf, dead) ∷ [];
  smart = [];
  sas_addresses = (pos 7, codes "0x5000c500a1b2c3d5") ∷ [];
  observed = 3;
}

abbrev stale : Dict Text DiskIdentity
stale = (sdf, disk_with (codes "OLD9")) ∷ []

abbrev swapped : Caches
swapped = record caches { remote_disks = stale }

-- The record of the disk that left is not shown, and neither is its pool state.
stale_record_is_dropped :
    (compose_bay manager shelf swapped slot (identity false fresh)).bay.health ≡ healthy
unfolding compose_bay
stale_record_is_dropped = refl

swapped_disk_shows_nothing_example :
    compose_bay manager shelf swapped slot (identity true fresh)
    ≡ compose_bay manager shelf (with_records stale [] [] swapped) slot (identity true fresh)
unfolding is_swapped get
swapped_disk_shows_nothing_example =
    swapped_disk_shows_nothing manager shelf swapped slot (identity true fresh) stale [] [] refl
      refl

swap_keeps_stale_address_example :
    (compose_bay manager shelf swapped slot (
      identity true
        (compose_bay manager shelf caches slot (identity true fresh)).kept)).bay.disk.sas_address
    ≡ get (pos 7) caches.sas_addresses
unfolding get compose_bay
swap_keeps_stale_address_example =
    swap_keeps_stale_address manager shelf caches swapped slot fresh refl refl

abbrev attributes : Attributes
attributes = record {
  present = true;
  wwid = some (codes "naa.5000CCA0");
  wwid_failed = false;
  serial = some (codes "NEW1");
  serial_failed = false;
  vendor = none;
  model = none;
  rev = none;
  sectors = some 8;
  rotational = some true;
}

prefix_is_replaced : normalise_wwn attributes.wwid ≡ some (codes "0x5000cca0")
unfolding normalise_wwn
prefix_is_replaced = refl

empty_cache-IsHonest : IsHonest []
unfolding get
empty_cache-IsHonest = record { kept = λ name w d h. absurd (cc h) }

-- The cache after another disk was read under the name.
abbrev used_cache : Cache
used_cache = (read_disk (record attributes { wwid = some (codes "naa.1") }) (some sdf) []).1

used_cache-IsHonest : IsHonest used_cache
used_cache-IsHonest =
    read_disk-IsHonest (record attributes { wwid = some (codes "naa.1") }) (some sdf) []
      empty_cache-IsHonest

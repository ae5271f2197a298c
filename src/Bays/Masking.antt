-- ===== src/Bays/Masking.antt =====
-- What a swapped disk and an unreadable one do to a bay.
use ktn_enclosure_manager.Common.{
  ◌≡◌, ◌↔◌, refl, ◌∙◌, true, false, not, ◌&&◌, ◌||◌, Option, none, some, list_eq, nat_eq, int_eq,
}
use ktn_enclosure_manager.Common.Dict.{Dict, get}
use ktn_enclosure_manager.Common.Text.{Text}
use ktn_enclosure_manager.Ident.State.{Manager}
use ktn_enclosure_manager.Bays.Model.{failed, ZfsInfo, SmartInfo, DiskIdentity}
use ktn_enclosure_manager.Bays.Health.{
  classify, classify_failed, is_dead, enclosure_asserts_failure,
}
use ktn_enclosure_manager.Bays.Compose.{
  is_blank, identity_conflict, merge_identity, or_empty, or_else, SlotState, Reading, unreadable,
  identity, local_of, is_swapped, Caches, no_identity, no_zfs, no_smart, compose_bay,
}

abbrev name_of : SlotState → Text
name_of slot = or_empty slot.block_device

-- The caches, with other records for one device.
abbrev pub with_records :
    Dict Text DiskIdentity → Dict Text ZfsInfo → Dict Text SmartInfo → Caches → Caches
with_records remote zfs smart c = record c { remote_disks = remote; zfs = zfs; smart = smart }

-- When the live reading of a bay conflicts with the record that TrueNAS has under its device name,
-- in one set of caches and in another, the two compositions are the same: nothing of the record,
-- its ZFS state or its SMART data shows in the bay.
pub swapped_disk_shows_nothing :
    (m : Manager) (id : Text) (c : Caches) (slot : SlotState) (reading : Reading)
    (remote' : Dict Text DiskIdentity) (zfs' : Dict Text ZfsInfo) (smart' : Dict Text SmartInfo)
    → is_swapped (local_of reading) (get (or_empty slot.block_device) c.remote_disks) ≡ true
    → is_swapped (local_of reading) (get (or_empty slot.block_device) remote') ≡ true
    → compose_bay m id c slot reading
      ≡ compose_bay m id (with_records remote' zfs' smart' c) slot reading
unfolding compose_bay
swapped_disk_shows_nothing m id c slot unreadable remote' zfs' smart' s s' = rw (s, s') refl
swapped_disk_shows_nothing m id c slot (identity kept d) remote' zfs' smart' s s' = rw (s, s') refl

no_identity_conflict : (remote : Option DiskIdentity) → is_swapped no_identity remote ≡ false
unfolding is_swapped identity_conflict is_blank
no_identity_conflict none = refl
no_identity_conflict (some r) = refl

-- A reading that failed names no disk, and hides no failure: the bay is failed exactly when the
-- shelf says so, or ZFS has lost the device that the slot names.
pub unreadable_disk_fails_loud :
    (m : Manager) (id : Text) (c : Caches) (slot : SlotState)
    → ((compose_bay m id c slot unreadable).bay.disk ≡ no_identity)
      × ((compose_bay m id c slot unreadable).identified ≡ false)
      × (((compose_bay m id c slot unreadable).bay.health ≡ failed) ↔ (
          (enclosure_asserts_failure slot.status slot.fault
            || (not (is_blank slot.block_device)
                && is_dead (or_else no_zfs (get (or_empty slot.block_device) c.zfs)).state))
          ≡ true))
unfolding compose_bay merge_identity
unreadable_disk_fails_loud m id c slot =
    let clear = no_identity_conflict (get (or_empty slot.block_device) c.remote_disks) in
    rw clear (
      refl,
      refl,
      classify_failed slot.status slot.fault (not (is_blank slot.block_device))
          (or_else no_zfs (get (or_empty slot.block_device) c.zfs))
          (or_else no_smart (get (or_empty slot.block_device) c.smart)),
    )

-- Whatever the records say, a bay whose shelf asserts a failure is failed.
pub shelf_failure_never_masked :
    (m : Manager) (id : Text) (c : Caches) (slot : SlotState) (reading : Reading)
    → enclosure_asserts_failure slot.status slot.fault ≡ true
    → (compose_bay m id c slot reading).bay.health ≡ failed
unfolding compose_bay classify
shelf_failure_never_masked m id c slot reading f = rw f refl

swapped_address :
    (m : Manager) (id : Text) (c : Caches) (slot : SlotState) (d : DiskIdentity)
    → is_swapped d (get (or_empty slot.block_device) c.remote_disks) ≡ true
    → (compose_bay m id c slot (identity true d)).bay.disk.sas_address ≡ d.sas_address
unfolding compose_bay merge_identity
swapped_address m id c slot d s = rw s refl

kept_address :
    (m : Manager) (id : Text) (c : Caches) (slot : SlotState) (d : DiskIdentity)
    → get (or_empty slot.block_device) c.remote_disks ≡ none
    → (compose_bay m id c slot (identity true d)).kept.sas_address
      ≡ get slot.ses_slot c.sas_addresses
unfolding compose_bay merge_identity is_swapped
kept_address m id c slot d absent = rw absent refl

-- The disk reader keeps the identity object of a bay. The bay is composed before TrueNAS has a
-- record for the device, and again when it has one that conflicts. The second bay, whose swap is
-- proven, still shows the SAS address that the first composition gave it.
pub swap_keeps_stale_address :
    (m : Manager) (id : Text) (c c' : Caches) (slot : SlotState) (d : DiskIdentity)
    → get (or_empty slot.block_device) c.remote_disks ≡ none
    → let kept = (compose_bay m id c slot (identity true d)).kept in
      is_swapped kept (get (or_empty slot.block_device) c'.remote_disks) ≡ true
      → (compose_bay m id c' slot (identity true kept)).bay.disk.sas_address
        ≡ get slot.ses_slot c.sas_addresses
swap_keeps_stale_address m id c c' slot d absent s =
    swapped_address m id c' slot (compose_bay m id c slot (identity true d)).kept s
    ∙ kept_address m id c slot d absent

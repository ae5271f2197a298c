-- ===== src/Polling/Composition.antt =====
-- `enclosure`, `bays`, `_compose_bays` and `_notify_health_changes` of
-- backend/ktnmgr/services/state.py: the loop around the composition of one bay.
use ktn_enclosure_manager.Common.{
  ℕ, ℤ, pos, Bool, Option, none, some, List, [], ◌∷◌, map, if◌then◌else◌, ◌==◌, nat_eq, list_eq,
}
use ktn_enclosure_manager.Common.Dict.{Dict, get, put}
use ktn_enclosure_manager.Common.Text.{Text, lower}
use ktn_enclosure_manager.Errors.{Outcome, ok, raise, enclosure_not_found}
use ktn_enclosure_manager.Bays.Compose.{
  SlotState, Reading, Caches, Composed, Bay, compose_bay, is_kept, or_empty, or_else,
}
use ktn_enclosure_manager.Bays.DiskReader.{Attributes, Cache, read_disk}
use ktn_enclosure_manager.Ident.State.{Manager}
use ktn_enclosure_manager.Notify.Notifier as Alerts
use ktn_enclosure_manager.Sysfs.Scan.{EnclosureRef}
use ktn_enclosure_manager.Polling.Service.{Service}

unfoldable pub addresses_by_slot : Dict ℕ Text → Dict ℤ Text
addresses_by_slot [] = []
addresses_by_slot ((n, a) ∷ d) = (pos n, a) ∷ addresses_by_slot d

-- `enclosure`
unfoldable pub enclosure_in : Text → List EnclosureRef → Outcome EnclosureRef
enclosure_in id [] = raise enclosure_not_found
enclosure_in id (ref ∷ refs) = if ref.logical_id == id then ok ref else enclosure_in id refs

unfoldable pub enclosure : Service → Text → Outcome EnclosureRef
unfolding enclosure_in lower
enclosure s logical_id = enclosure_in (lower logical_id) s.enclosures.value

-- The caches, as the composition of one bay reads them.
unfoldable pub caches_for : Service → Text → Caches
unfolding addresses_by_slot get
caches_for s id = record {
  remote_disks = s.remote_disks.value;
  zfs = s.zfs.value;
  smart = s.smart.value;
  sas_addresses = addresses_by_slot (or_else [] (get id s.sas_by_slot));
  observed = s.slots.observed_monotonic;
}

-- The disk reader holds the object that the composition has changed.
unfoldable pub keep_object : Text → Reading → Composed → Cache → Cache
unfolding get put
keep_object name reading c cache =
    if is_kept reading
    then elim (get name cache) [ none ↦ cache | some (wwid, old) ↦ put name (wwid, c.kept) cache ]
    else cache

-- `attributes` is what the block device shows now.
module _ (attributes : Text → Attributes) (m : Manager) where
  unfoldable pub compose_slots : Text → Caches → List SlotState → Cache → List (Bay × Bool) × Cache
  unfolding read_disk compose_bay keep_object
  compose_slots id c [] cache = ([], cache)
  compose_slots id c (slot ∷ slots) cache =
      let name = or_empty slot.block_device in
      let (reading, cache') = read_disk (attributes name) slot.block_device cache in
      let composed = compose_bay m id c slot reading in
      let (rest, cache'') = compose_slots id c slots (keep_object name reading composed cache') in
      ((composed.bay, composed.identified) ∷ rest, cache'')

  unfoldable pub compose_bays : Text → Service → Outcome (List (Bay × Bool)) × Service
  unfolding enclosure caches_for compose_slots get
  compose_bays logical_id s = elim (enclosure s logical_id) [
    | raise e ↦ (raise e, s)
    | ok ref ↦
        let (composed, cache) =
          compose_slots ref.logical_id (caches_for s ref.logical_id)
            (or_else [] (get ref.logical_id s.slots.value)) s.disk_cache in
        (ok composed, record s { disk_cache = cache })
  ]

  abbrev pub bays_of : Outcome (List (Bay × Bool)) → Outcome (List Bay)
  bays_of (ok composed) = ok (map (λ (c : Bay × Bool). c.0) composed)
  bays_of (raise e) = raise e

  unfoldable pub bays : Text → Service → Outcome (List Bay) × Service
  unfolding compose_bays
  bays logical_id s = let (o, s') = compose_bays logical_id s in (bays_of o, s')

  -- `_notifiable` holds of every bay.
  abbrev pub alert_bay : Bay × Bool → Alerts.Bay
  alert_bay (b, identified) = record {
    enclosure_id = b.enclosure_id;
    ses_slot = b.ses_slot;
    health = b.health;
  }

  module _ (c : Alerts.Config) (now : ℕ) (post : Alerts.Bay → Option Text → Alerts.Response) where
    -- An exception ends the loop and is logged.
    unfoldable pub notify_each :
        List EnclosureRef → Service → Alerts.Notifier → Service × Alerts.Notifier
    unfolding compose_bays Alerts.evaluate
    notify_each [] s n = (s, n)
    notify_each (ref ∷ refs) s n =
        let (o, s') = compose_bays ref.logical_id s in
        elim o [
          | raise e ↦ (s', n)
          | ok composed ↦
              notify_each refs s' (Alerts.evaluate c now post (map alert_bay composed) n)
        ]

    unfoldable pub notify_health_changes : Service → Alerts.Notifier → Service × Alerts.Notifier
    unfolding notify_each
    notify_health_changes s n = if c.enabled then notify_each s.enclosures.value s n else (s, n)

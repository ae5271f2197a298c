-- ===== src/Correlate/Tests.antt =====
-- backend/ktnmgr/truenas/correlate.py on a pool, its disks and an alert.
use ktn_enclosure_manager.Common.{
  ℕ, true, false, Option, none, some, [], ◌∷◌, map, nat_eq, list_eq, ◌≡◌, refl,
}
use ktn_enclosure_manager.Common.Dict.{Dict, get, Once}
use ktn_enclosure_manager.Common.Text.{Text, codes}
use ktn_enclosure_manager.Errors.{Outcome, ok, raise, other_exception}
use ktn_enclosure_manager.Bays.Model.{ZfsInfo, degraded, SmartInfo}
use ktn_enclosure_manager.Correlate.Disks.{build_disk_index}
use ktn_enclosure_manager.Correlate.Indexed.{build_zfs_index_lem}
use ktn_enclosure_manager.Correlate.Json.{number, obj, end, field}
use ktn_enclosure_manager.Correlate.Sample.{fitting}
use ktn_enclosure_manager.Correlate.Smart.{build_smart_index}
use ktn_enclosure_manager.Correlate.Topology.{
  raidz3, spare_vdev, Member, disk, lost, group, none_more, more, Pool, encode_pool, pool_entries,
  latest,
}
use ktn_enclosure_manager.Correlate.Warnings.{
  Alert, encode_alert, warnings, with_alert, encode_disk, listed, or_first, read_out,
  build_smart_index_lem,
}
use ktn_enclosure_manager.Correlate.Zfs.{build_zfs_index}

abbrev member : Text → Text → Member
member device status = record {
  name = codes "uuid-1";
  device = device;
  status = status;
  reads = 2;
  writes = 0;
  checksums = 0;
}

-- A disk that is being replaced stands under the vdev `spare-0` in `raidz3-0`.
abbrev tank : Pool
tank = record {
  name = codes "tank";
  action = codes "resilver";
  progress = codes "SCANNING";
  storage =
      more
        (group raidz3 (codes "raidz3-0") (disk (member (codes "sda") (codes "ONLINE"))) (
          more
            (group spare_vdev (codes "spare-0") (lost (member (codes "sdb") (codes "REMOVED")))
              (more (disk (member (codes "sdc") (codes "degraded"))) none_more))
            none_more))
        none_more;
  special = none_more;
  dedup = none_more;
  logs = none_more;
  caches = none_more;
  spares = none_more;
}

abbrev sdc_info : ZfsInfo
sdc_info = record {
  pool = some (codes "tank");
  vdev = some (codes "spare-0");
  state = degraded;
  read_errors = some 2;
  write_errors = some 0;
  checksum_errors = some 0;
  is_spare = false;
  resilvering = true;
}

abbrev found_at : Text → Outcome (Dict Text ZfsInfo) → Option ZfsInfo
found_at k (ok index) = get k index
found_at k (raise e) = none

tank_test : found_at (codes "sdc") (build_zfs_index fitting (encode_pool tank ∷ [])) ≡ some sdc_info
unfolding build_zfs_index get
tank_test = refl

bad_pool_test :
    build_zfs_index fitting (obj (field (codes "topology") (number 3) end) ∷ [])
    ≡ raise other_exception
unfolding build_zfs_index get
bad_pool_test = refl

disk_test : build_disk_index fitting (obj (field (codes "size") (number 9) end) ∷ []) ≡ ok []
unfolding build_disk_index
disk_test = refl

build_zfs_index_lem_example :
    (index : Dict Text ZfsInfo) × (build_zfs_index fitting (map encode_pool (tank ∷ [])) ≡ ok index)
    × ((k : Text) → get k index ≡ latest k none (pool_entries (tank ∷ [])))
build_zfs_index_lem_example = build_zfs_index_lem fitting (tank ∷ [])

abbrev temperatures : Dict Text (Option ℕ)
temperatures = (codes "sda", some 41) ∷ (codes "sdb", none) ∷ []

abbrev hot : Alert
hot = record { device = codes "/dev/sda"; formatted = codes "Device /dev/sda is too hot." }

temperatures-Once : Once temperatures
unfolding Once get
temperatures-Once = (refl, (refl, tt))

build_smart_index_lem_example :
    (index : Dict Text SmartInfo) × (build_smart_index fitting temperatures
        (map encode_disk (codes "sdc" ∷ []))
        (map encode_alert (hot ∷ []))
      ≡ ok index)
    × ((k : Text)
        → get k index
          ≡ with_alert
              (latest k none (warnings (hot ∷ [])))
              (or_first (read_out (get k temperatures)) (listed k (codes "sdc" ∷ []))))
build_smart_index_lem_example =
    build_smart_index_lem fitting temperatures (codes "sdc" ∷ []) (hot ∷ []) temperatures-Once

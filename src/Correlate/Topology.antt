-- ===== src/Correlate/Topology.antt =====
-- Pools as TrueNAS describes them, as a tree, with its JSON form and the disks in it. The model of
-- backend/ktnmgr/truenas/correlate.py is compared with this description.
use ktn_enclosure_manager.Common.{
  ℕ, Bool, ◌&&◌, ◌||◌, Option, some, List, [], ◌∷◌, ◌++◌, if◌then◌else◌, ◌==◌, nat_eq, list_eq,
}
use ktn_enclosure_manager.Common.Text.{Text, codes}
use ktn_enclosure_manager.Bays.Model.{ZfsInfo}
use ktn_enclosure_manager.Correlate.Json.{
  Value, null, number, text, arr, obj, Values, no_values, value_then, Fields, end, field, upper,
}
use ktn_enclosure_manager.Correlate.Zfs.{state_named}

pub data Kind : Type 0 where
  mirror raidz1 raidz2 raidz3 draid spare_vdev replacing : Kind

abbrev pub kind_name : Kind → Text
kind_name mirror = codes "MIRROR"
kind_name raidz1 = codes "RAIDZ1"
kind_name raidz2 = codes "RAIDZ2"
kind_name raidz3 = codes "RAIDZ3"
kind_name draid = codes "DRAID"
kind_name spare_vdev = codes "SPARE"
kind_name replacing = codes "REPLACING"

-- A disk with its status and its read, write and checksum errors.
pub record Member : Type 0 where
  pub name : Text
  pub device : Text
  pub status : Text
  pub reads : ℕ
  pub writes : ℕ
  pub checksums : ℕ

-- `lost` is a disk that ZFS remembers and that is gone.
mutual
  pub data Vdev : Type 0 where
    disk : Member → Vdev
    lost : Member → Vdev
    group : Kind → Text → Vdev → Vdevs → Vdev

  pub data Vdevs : Type 0 where
    none_more : Vdevs
    more : Vdev → Vdevs → Vdevs

pub record Pool : Type 0 where
  pub name : Text
  pub action : Text
  pub progress : Text
  pub storage : Vdevs
  pub special : Vdevs
  pub dedup : Vdevs
  pub logs : Vdevs
  pub caches : Vdevs
  pub spares : Vdevs

abbrev pub encode_stats : Member → Value
encode_stats m = obj (
    field (codes "read_errors") (number m.reads) (
      field (codes "write_errors") (number m.writes)
        (field (codes "checksum_errors") (number m.checksums) end)))

abbrev pub disk_fields : Member → Fields
disk_fields m = field (codes "name") (text m.name) (
    field (codes "type") (text (codes "DISK")) (
      field (codes "disk") (text m.device) (
        field (codes "status") (text m.status)
          (field (codes "stats") (encode_stats m) (field (codes "children") (arr no_values) end)))))

abbrev pub lost_fields : Member → Fields
lost_fields m = field (codes "name") (text m.name) (
    field (codes "type") (text (codes "DISK")) (
      field (codes "disk") null (
        field (codes "unavail_disk") (text m.device)
          (field (codes "status") (text m.status) (field (codes "stats") (encode_stats m) end)))))

abbrev pub group_fields : Kind → Text → Value → Fields
group_fields kind name children =
    field (codes "name") (text name)
      (field (codes "type") (text (kind_name kind)) (field (codes "children") children end))

abbrev mutual
  pub encode : Vdev → Value
  encode (disk m) = obj (disk_fields m)
  encode (lost m) = obj (lost_fields m)
  encode (group kind name v vs) =
      obj (group_fields kind name (arr (value_then (encode v) (encode_all vs))))

  pub encode_all : Vdevs → Values
  encode_all none_more = no_values
  encode_all (more v vs) = value_then (encode v) (encode_all vs)

abbrev pub encode_topology : Pool → Value
encode_topology p = obj (
    field (codes "data") (arr (encode_all p.storage)) (
      field (codes "special") (arr (encode_all p.special)) (
        field (codes "dedup") (arr (encode_all p.dedup)) (
          field (codes "log") (arr (encode_all p.logs)) (
            field (codes "cache") (arr (encode_all p.caches))
              (field (codes "spare") (arr (encode_all p.spares)) end))))))

abbrev pub encode_pool : Pool → Value
encode_pool p = obj (
    field (codes "name") (text p.name) (
      field (codes "topology") (encode_topology p) (
        field (codes "scan")
          (obj (
            field (codes "function") (text p.action) (field (codes "state") (text p.progress) end)))
          end)))

abbrev pub or_text : Text → Text → Text
or_text [] b = b
or_text (c ∷ s) b = c ∷ s

-- A member with the name of the nearest named vdev around it.
abbrev pub Placed : Type 0
Placed = Text × Member

abbrev pub place : Text → Member → List (Text × Placed)
place label m = elim m.device [ [] ↦ [] | c ∷ s ↦ (m.device, (or_text label m.name, m)) ∷ [] ]

-- The disks of a vdev by device, each with its place.
abbrev mutual
  pub members : Vdev → Text → List (Text × Placed)
  members (disk m) label = place label m
  members (lost m) label = place label m
  members (group kind name v vs) label =
      members v (or_text name label) ++ members_all vs (or_text name label)

  pub members_all : Vdevs → Text → List (Text × Placed)
  members_all none_more label = []
  members_all (more v vs) label = members v label ++ members_all vs label

-- The vdevs of a group, each beneath its own name.
abbrev pub name_of : Vdev → Text
name_of (disk m) = m.name
name_of (lost m) = m.name
name_of (group kind name v vs) = name

abbrev pub is_resilvering : Pool → Bool
is_resilvering p =
    (upper p.action == codes "RESILVER")
    && ((upper p.progress == codes "SCANNING") || (upper p.progress == codes "ACTIVE"))

abbrev pub info : Text → Bool → Bool → Placed → ZfsInfo
info pool_name in_spares resilvering (vdev, m) = record {
  pool = some pool_name;
  vdev = some vdev;
  state = state_named (upper m.status);
  read_errors = some m.reads;
  write_errors = some m.writes;
  checksum_errors = some m.checksums;
  is_spare = in_spares;
  resilvering = resilvering;
}

abbrev pub infos : Text → Bool → Bool → List (Text × Placed) → List (Text × ZfsInfo)
infos pool_name in_spares resilvering [] = []
infos pool_name in_spares resilvering ((k, m) ∷ ms) =
    (k, info pool_name in_spares resilvering m) ∷ infos pool_name in_spares resilvering ms

-- What a group of vdevs, a list of groups and a list of pools say of the disks, in order.
abbrev pub vdev_entries : Text → Bool → Bool → Vdevs → List (Text × ZfsInfo)
vdev_entries pool_name in_spares resilvering none_more = []
vdev_entries pool_name in_spares resilvering (more v vs) =
    infos pool_name in_spares resilvering (members v (name_of v))
    ++ vdev_entries pool_name in_spares resilvering vs

abbrev pub groups_of : Pool → List (Text × Vdevs)
groups_of p =
    (codes "data", p.storage)
    ∷ (codes "special", p.special)
    ∷ (codes "dedup", p.dedup)
    ∷ (codes "log", p.logs)
    ∷ (codes "cache", p.caches)
    ∷ (codes "spare", p.spares)
    ∷ []

abbrev pub group_entries : Text → Bool → List (Text × Vdevs) → List (Text × ZfsInfo)
group_entries pool_name resilvering [] = []
group_entries pool_name resilvering ((g, vs) ∷ gs) =
    vdev_entries pool_name (g == codes "spare") resilvering vs
    ++ group_entries pool_name resilvering gs

abbrev pub pool_entries : List Pool → List (Text × ZfsInfo)
pool_entries [] = []
pool_entries (p ∷ ps) = group_entries p.name (is_resilvering p) (groups_of p) ++ pool_entries ps

-- The last entry of a key, or what was there before.
abbrev pub latest {ℓ} : {A : Type ℓ} → Text → Option A → List (Text × A) → Option A
latest k before [] = before
latest k before ((j, a) ∷ es) = latest k (if j == k then some a else before) es

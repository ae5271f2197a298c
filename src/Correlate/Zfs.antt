-- ===== src/Correlate/Zfs.antt =====
-- `_as_state`, `_walk` and `build_zfs_index` of backend/ktnmgr/truenas/correlate.py.
use ktn_enclosure_manager.Common.{
  Bool, true, false, ◌&&◌, ◌||◌, some, List, [], ◌∷◌, if◌then◌else◌, ◌==◌, nat_eq, list_eq,
}
use ktn_enclosure_manager.Common.Dict.{Dict, put}
use ktn_enclosure_manager.Common.Text.{Text, codes}
use ktn_enclosure_manager.Errors.{Outcome, ok, raise, other_exception, ◌>>=◌}
use ktn_enclosure_manager.Bays.Model.{
  ZfsState, online, degraded, faulted, offline, unavail, removed, spare, unknown_state, ZfsInfo,
}
use ktn_enclosure_manager.Correlate.Json.{
  Value, null, flag, number, text, arr, obj, Values, no_values, value_then, Fields, end, field,
  is_true, or_value, field_at, get_field, items_of, object_at, upper, Fitting,
}

-- `ZfsState(...)`: the value of each state is its name; any other text is a `ValueError`.
abbrev pub state_named : Text → ZfsState
state_named s =
    if s == codes "ONLINE"
    then online
    else if s == codes "DEGRADED"
    then degraded
    else if s == codes "FAULTED"
    then faulted
    else if s == codes "OFFLINE"
    then offline
    else if s == codes "UNAVAIL"
    then unavail
    else if s == codes "REMOVED"
    then removed
    else if s == codes "SPARE"
    then spare
    else unknown_state

-- What `_walk` records of a leaf.
pub record Detail : Type 0 where
  pub vdev : Value
  pub status : Value
  pub stats : Value

abbrev pub disk_of : Fields → Value
disk_of fs = or_value (field_at (codes "disk") fs) (field_at (codes "unavail_disk") fs)

module _ (p : Fitting) where
  unfoldable pub as_state : Value → ZfsState
  unfolding upper
  as_state raw = state_named (upper (p.str raw))

  -- `str(v or "").upper()`
  abbrev pub upper_of : Value → Text
  upper_of v = upper (p.str (or_value v (text [])))

  -- The label for what is beneath a node with children.
  unfoldable pub label_of : Fields → Value → Value
  unfolding upper field_at
  label_of fs vdev_name =
      or_value
        (if upper_of (field_at (codes "type") fs) == codes "DISK"
          then vdev_name
          else field_at (codes "name") fs)
        vdev_name

  -- A node without children.
  unfoldable pub walk_leaf : Fields → Value → Dict Text Detail → Dict Text Detail
  unfolding field_at put
  walk_leaf fs vdev_name out =
      if is_true (disk_of fs)
      then put (p.str (disk_of fs))
          (record {
            vdev = or_value vdev_name (field_at (codes "name") fs);
            status = field_at (codes "status") fs;
            stats = or_value (field_at (codes "stats") fs) (obj end);
          })
          out
      else out

  -- `_walk`. The recursion is on the node: `walk_in` goes to the value of `children`, and `fs` are
  -- all fields of the node.
  unfoldable mutual
    unfolding label_of walk_leaf

    pub walk : Value → Value → Dict Text Detail → Outcome (Dict Text Detail)
    walk (obj fs) vdev_name out = walk_in fs fs vdev_name out
    walk null vdev_name out = raise other_exception
    walk (flag b) vdev_name out = raise other_exception
    walk (number n) vdev_name out = raise other_exception
    walk (text s) vdev_name out = raise other_exception
    walk (arr xs) vdev_name out = raise other_exception

    pub walk_in : Fields → Fields → Value → Dict Text Detail → Outcome (Dict Text Detail)
    walk_in end fs vdev_name out = ok (walk_leaf fs vdev_name out)
    walk_in (field k v rest) fs vdev_name out = elim (k == codes "children") [
      | true ↦ walk_value v fs vdev_name out
      | false ↦ walk_in rest fs vdev_name out
    ]

    -- A `children` that is true and no list is iterated all the same: no number can be, and no key
    -- or character is a node.
    pub walk_value : Value → Fields → Value → Dict Text Detail → Outcome (Dict Text Detail)
    walk_value (arr no_values) fs vdev_name out = ok (walk_leaf fs vdev_name out)
    walk_value (arr (value_then x xs)) fs vdev_name out =
        walk_all (value_then x xs) (label_of fs vdev_name) out
    walk_value null fs vdev_name out = ok (walk_leaf fs vdev_name out)
    walk_value (flag b) fs vdev_name out =
        if b then raise other_exception else ok (walk_leaf fs vdev_name out)
    walk_value (number n) fs vdev_name out =
        if n == 0 then ok (walk_leaf fs vdev_name out) else raise other_exception
    walk_value (text []) fs vdev_name out = ok (walk_leaf fs vdev_name out)
    walk_value (text (c ∷ s)) fs vdev_name out = raise other_exception
    walk_value (obj end) fs vdev_name out = ok (walk_leaf fs vdev_name out)
    walk_value (obj (field k v r)) fs vdev_name out = raise other_exception

    pub walk_all : Values → Value → Dict Text Detail → Outcome (Dict Text Detail)
    walk_all no_values label out = ok out
    walk_all (value_then x xs) label out = walk x label out >>= walk_all xs label

  abbrev pub topology_groups : List Text
  topology_groups =
      codes "data"
      ∷ codes "special"
      ∷ codes "dedup"
      ∷ codes "log"
      ∷ codes "cache"
      ∷ codes "spare"
      ∷ []

  unfoldable pub info_of : Text → Text → Bool → Detail → Outcome ZfsInfo
  unfolding as_state
  info_of pool_name group resilvering d = do
    read_raw ← get_field (codes "read_errors") d.stats
    write_raw ← get_field (codes "write_errors") d.stats
    checksum_raw ← get_field (codes "checksum_errors") d.stats
    vdev ← p.text_field d.vdev
    reads ← p.int_field read_raw
    writes ← p.int_field write_raw
    checksums ← p.int_field checksum_raw
    ok (record {
      pool = some pool_name;
      vdev = vdev;
      state = as_state d.status;
      read_errors = reads;
      write_errors = writes;
      checksum_errors = checksums;
      is_spare = group == codes "spare";
      resilvering = resilvering;
    })

  unfoldable pub put_leaves :
      Text → Text → Bool → Dict Text Detail → Dict Text ZfsInfo → Outcome (Dict Text ZfsInfo)
  unfolding info_of put
  put_leaves pool_name group resilvering [] index = ok index
  put_leaves pool_name group resilvering ((name, d) ∷ leaves) index = do
    info ← info_of pool_name group resilvering d
    put_leaves pool_name group resilvering leaves (put name info index)

  unfoldable pub index_vdevs :
      Text → Text → Bool → List Value → Dict Text ZfsInfo → Outcome (Dict Text ZfsInfo)
  unfolding get_field walk put_leaves
  index_vdevs pool_name group resilvering [] index = ok index
  index_vdevs pool_name group resilvering (vdev ∷ vdevs) index = do
    name ← get_field (codes "name") vdev
    leaves ← walk vdev name []
    index' ← put_leaves pool_name group resilvering leaves index
    index_vdevs pool_name group resilvering vdevs index'

  unfoldable pub index_groups :
      Text → Value → Bool → List Text → Dict Text ZfsInfo → Outcome (Dict Text ZfsInfo)
  unfolding get_field items_of index_vdevs
  index_groups pool_name topology resilvering [] index = ok index
  index_groups pool_name topology resilvering (group ∷ groups) index = do
    found ← get_field group topology
    vdevs ← items_of found
    index' ← index_vdevs pool_name group resilvering vdevs index
    index_groups pool_name topology resilvering groups index'

  unfoldable pub index_pools : List Value → Dict Text ZfsInfo → Outcome (Dict Text ZfsInfo)
  unfolding get_field upper index_groups
  index_pools [] index = ok index
  index_pools (pool ∷ pools) index = do
    name ← get_field (codes "name") pool
    topology ← object_at (codes "topology") pool
    scan ← object_at (codes "scan") pool
    action ← get_field (codes "function") scan
    state ← get_field (codes "state") scan
    index' ←
        index_groups (p.str (or_value name (text []))) topology
          ((upper_of action == codes "RESILVER")
            && ((upper_of state == codes "SCANNING") || (upper_of state == codes "ACTIVE")))
          topology_groups index
    index_pools pools index'

  unfoldable pub build_zfs_index : List Value → Outcome (Dict Text ZfsInfo)
  unfolding index_pools
  build_zfs_index pools = index_pools pools []

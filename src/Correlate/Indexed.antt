-- ===== src/Correlate/Indexed.antt =====
-- `build_zfs_index` of backend/ktnmgr/truenas/correlate.py on the JSON form of pools.
use ktn_enclosure_manager.Common.{
  Bool, none, List, [], ◌∷◌, map, ◌==◌, nat_eq, list_eq, ◌≡◌, refl, ◌∙◌, ap, sym,
}
use ktn_enclosure_manager.Common.Dict.{Dict, get, put}
use ktn_enclosure_manager.Common.Text.{Text, codes}
use ktn_enclosure_manager.Errors.{Outcome, ok, ◌>>=◌}
use ktn_enclosure_manager.Bays.Model.{ZfsInfo}
use ktn_enclosure_manager.Correlate.Json.{
  Value, text, arr, or_value, field_at, get_field, items_of, list_of, Fitting,
}
use ktn_enclosure_manager.Correlate.Topology.{
  Vdev, disk, lost, group, Vdevs, none_more, more, Pool, encode, encode_all, encode_topology,
  encode_pool, Placed, members, name_of, is_resilvering, info, infos, vdev_entries, groups_of,
  group_entries, pool_entries, latest,
}
use ktn_enclosure_manager.Correlate.Walked.{detail_of, put_details, walk-encode}
use ktn_enclosure_manager.Correlate.Zfs.{
  as_state, info_of, put_leaves, index_vdevs, index_groups, index_pools, build_zfs_index, walk,
}
use ktn_enclosure_manager.Correlate.Latest.{
  as_details, as_details-nothing, as_details-put_placed, get-nothing, get-put_infos, get-put_placed,
  latest-append, latest-infos, no_entry, nothing-Once, over, put_infos, put_placed, put_placed-Once,
}

-- A run of the indexing that ends well with the entries added.
abbrev pub Adds : Outcome (Dict Text ZfsInfo) → Dict Text ZfsInfo → List (Text × ZfsInfo) → Type 0
Adds o index es =
    (after : Dict Text ZfsInfo) × (o ≡ ok after)
    × ((k : Text) → get k after ≡ latest k (get k index) es)

module _ (p : Fitting) where
  info_of-detail :
      (pool g : Text) (res : Bool) (m : Placed)
      → info_of p pool g res (detail_of m) ≡ ok (info pool (g == codes "spare") res m)
  unfolding info_of get_field field_at as_state
  info_of-detail pool g res (vdev, m) =
      rw
        (
          p.text_field_text vdev,
          p.int_field_number m.reads,
          p.int_field_number m.writes,
          p.int_field_number m.checksums,
          p.str_text m.status,
        )
        refl

  put_leaves-details :
      (pool g : Text) (res : Bool) (d : Dict Text Placed) (index : Dict Text ZfsInfo)
      → put_leaves p pool g res (as_details d) index
        ≡ ok (put_infos pool (g == codes "spare") res d index)
  unfolding put_leaves as_details put_infos
  put_leaves-details pool g res [] index = refl
  put_leaves-details pool g res ((k, m) ∷ d) index =
      ap (λ o. o >>= λ i. put_leaves p pool g res (as_details d) (put k i index))
        (info_of-detail pool g res m)
      ∙ put_leaves-details pool g res d (put k (info pool (g == codes "spare") res m) index)

  name-encode : (v : Vdev) → get_field (codes "name") (encode v) ≡ ok (text (name_of v))
  unfolding get_field field_at
  name-encode (disk m) = refl
  name-encode (lost m) = refl
  name-encode (group kind name v vs) = refl

  vdev-Adds :
      (pool g : Text) (res : Bool) (v : Vdev) (index : Dict Text ZfsInfo)
      (rest : Dict Text ZfsInfo → Outcome (Dict Text ZfsInfo))
      → (after : Dict Text ZfsInfo) × ((get_field (codes "name") (encode v) >>= λ name.
            walk p (encode v) name [] >>= λ leaves. put_leaves p pool g res leaves index >>= rest)
          ≡ rest after)
        × ((k : Text)
            → get k after
              ≡ latest k
                  (get k index)
                  (infos pool (g == codes "spare") res (members v (name_of v))))
  vdev-Adds pool g res v index rest =
      let ms = members v (name_of v) in
      let d = put_placed ms [] in
      (
        put_infos pool (g == codes "spare") res d index,
        ap
              (λ o. o >>= λ name. walk p (encode v) name [] >>= λ leaves.
                put_leaves p pool g res leaves index >>= rest)
              (name-encode v)
            ∙ (ap (λ o. o >>= λ leaves. put_leaves p pool g res leaves index >>= rest)
                  (walk-encode p v (name_of v) []
                    ∙ ap ok (
                        ap (put_details ms) (sym as_details-nothing) ∙ as_details-put_placed ms []))
                ∙ ap (λ o. o >>= rest) (put_leaves-details pool g res d index)),
        λ k.
            get-put_infos pool (g == codes "spare") res k d index
              (put_placed-Once ms [] nothing-Once)
            ∙ (ap (λ o. over pool (g == codes "spare") res o (get k index))
                  (get-put_placed k ms [] ∙ ap (λ o. latest k o ms) (get-nothing k))
                ∙ latest-infos pool (g == codes "spare") res k none (get k index) ms),
      )

  vdevs-Adds :
      (pool g : Text) (res : Bool) (vs : Vdevs) (index : Dict Text ZfsInfo)
      → Adds
          (index_vdevs p pool g res (list_of (encode_all vs)) index)
          index
          (vdev_entries pool (g == codes "spare") res vs)
  unfolding index_vdevs
  vdevs-Adds pool g res none_more index = (index, refl, λ k. refl)
  vdevs-Adds pool g res (more v vs) index =
      let (next, ran, read) =
        vdev-Adds pool g res v index (index_vdevs p pool g res (list_of (encode_all vs))) in
      let (after, ran', read') = vdevs-Adds pool g res vs next in
      (
        after,
        ran ∙ ran',
        λ k.
            read' k
            ∙ (ap (λ o. latest k o (vdev_entries pool (g == codes "spare") res vs)) (read k)
                ∙ sym (
                    latest-append k (get k index)
                      (infos pool (g == codes "spare") res (members v (name_of v)))
                      (vdev_entries pool (g == codes "spare") res vs))),
      )

  -- The topology has each group of the list.
  abbrev Has : Value → List (Text × Vdevs) → Type 0
  Has topology [] = Unit
  Has topology ((g, vs) ∷ gs) = (get_field g topology ≡ ok (arr (encode_all vs))) × Has topology gs

  abbrev names_of : List (Text × Vdevs) → List Text
  names_of [] = []
  names_of ((g, vs) ∷ gs) = g ∷ names_of gs

  items-encode : (vs : Vdevs) → items_of (arr (encode_all vs)) ≡ ok (list_of (encode_all vs))
  unfolding items_of
  items-encode vs = refl

  groups-Adds :
      (pool : Text) (topology : Value) (res : Bool) (gs : List (Text × Vdevs))
      (index : Dict Text ZfsInfo)
      → Has topology gs
      → Adds
          (index_groups p pool topology res (names_of gs) index)
          index
          (group_entries pool res gs)
  unfolding index_groups
  groups-Adds pool topology res [] index has = (index, refl, λ k. refl)
  groups-Adds pool topology res ((g, vs) ∷ gs) index has =
      let run = λ (i : Dict Text ZfsInfo). index_groups p pool topology res (names_of gs) i in
      let (next, ran, read) = vdevs-Adds pool g res vs index in
      let (after, ran', read') = groups-Adds pool topology res gs next has.1 in
      (
        after,
        ap
              (λ o. o >>= λ found.
                items_of found >>= λ vdevs. index_vdevs p pool g res vdevs index >>= run)
              has.0
            ∙ (ap (λ o. o >>= λ vdevs. index_vdevs p pool g res vdevs index >>= run)
                  (items-encode vs)
                ∙ (ap (λ o. o >>= run) ran ∙ ran')),
        λ k.
            read' k
            ∙ (ap (λ o. latest k o (group_entries pool res gs)) (read k)
                ∙ sym (
                    latest-append k (get k index) (vdev_entries pool (g == codes "spare") res vs)
                      (group_entries pool res gs))),
      )

  topology-Has : (q : Pool) → Has (encode_topology q) (groups_of q)
  unfolding get_field field_at
  topology-Has q = (refl, (refl, (refl, (refl, (refl, (refl, tt))))))

  or_empty-text : (t : Text) → p.str (or_value (text t) (text [])) ≡ t
  or_empty-text [] = p.str_text []
  or_empty-text (c ∷ t) = p.str_text (c ∷ t)

  pool-runs :
      (q : Pool) (qs : List Value) (index : Dict Text ZfsInfo)
      → index_pools p (encode_pool q ∷ qs) index ≡ (
          index_groups p q.name
            (encode_topology q)
            (is_resilvering q)
            (names_of (groups_of q))
            index
          >>= index_pools p qs)
  unfolding index_pools get_field field_at
  pool-runs q qs index =
      rw (or_empty-text q.name, or_empty-text q.action, or_empty-text q.progress) refl

  no_pools : (index : Dict Text ZfsInfo) → index_pools p [] index ≡ ok index
  unfolding index_pools
  no_pools index = refl

  pools-Adds :
      (qs : List Pool) (index : Dict Text ZfsInfo)
      → Adds (index_pools p (map encode_pool qs) index) index (pool_entries qs)
  pools-Adds [] index = (index, no_pools index, λ k. refl)
  pools-Adds (q ∷ qs) index =
      let (next, ran, read) =
        groups-Adds q.name (encode_topology q) (is_resilvering q) (groups_of q) index
          (topology-Has q) in
      let (after, ran', read') = pools-Adds qs next in
      (
        after,
        pool-runs q (map encode_pool qs) index
            ∙ (ap (λ o. o >>= index_pools p (map encode_pool qs)) ran ∙ ran'),
        λ k.
            read' k
            ∙ (ap (λ o. latest k o (pool_entries qs)) (read k)
                ∙ sym (
                    latest-append k (get k index)
                      (group_entries q.name (is_resilvering q) (groups_of q)) (pool_entries qs))),
      )

  -- On pools that are described as TrueNAS describes them, `build_zfs_index` returns, and a device has
  -- in its index exactly what the last disk with that name, in the order of the pools and of their
  -- groups and trees, says of itself: its pool, the innermost named vdev around it, its state and
  -- errors, whether it stands among the spares and whether its pool resilvers. A device that no disk
  -- names is not in it.
  pub build_zfs_index_lem :
      (qs : List Pool)
      → (index : Dict Text ZfsInfo) × (build_zfs_index p (map encode_pool qs) ≡ ok index)
        × ((k : Text) → get k index ≡ latest k none (pool_entries qs))
  unfolding build_zfs_index
  build_zfs_index_lem qs =
      let (index, ran, read) = pools-Adds qs [] in
      (index, ran, λ k. read k ∙ ap (λ o. latest k o (pool_entries qs)) (no_entry k))

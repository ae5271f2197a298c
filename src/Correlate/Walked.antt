-- ===== src/Correlate/Walked.antt =====
-- `_walk` of backend/ktnmgr/truenas/correlate.py on the JSON form of a vdev tree.
use ktn_enclosure_manager.Common.{ℕ, List, [], ◌∷◌, ◌++◌, nat_eq, list_eq, ◌≡◌, refl, ◌∙◌, ap, sym}
use ktn_enclosure_manager.Common.Dict.{Dict, put}
use ktn_enclosure_manager.Common.Text.{Text, codes}
use ktn_enclosure_manager.Errors.{ok, ◌>>=◌}
use ktn_enclosure_manager.Correlate.Json.{
  Value, text, arr, value_then, or_value, field_at, upper, Fitting,
}
use ktn_enclosure_manager.Correlate.Topology.{
  Kind, mirror, raidz1, raidz2, raidz3, draid, spare_vdev, replacing, Member, Vdev, disk, lost,
  group, Vdevs, none_more, more, encode_stats, disk_fields, lost_fields, group_fields, encode,
  encode_all, or_text, Placed, place, members, members_all,
}
use ktn_enclosure_manager.Correlate.Zfs.{Detail, label_of, walk_leaf, walk, walk_all}

abbrev pub detail_of : Placed → Detail
detail_of (vdev, m) = record { vdev = text vdev; status = text m.status; stats = encode_stats m }

-- The leaves, as `_walk` puts them one after another.
abbrev pub put_details : List (Text × Placed) → Dict Text Detail → Dict Text Detail
put_details [] out = out
put_details ((k, m) ∷ ms) out = put_details ms (put k (detail_of m) out)

put_details-append :
    (ms ns : List (Text × Placed)) (out : Dict Text Detail)
    → put_details (ms ++ ns) out ≡ put_details ns (put_details ms out)
put_details-append [] ns out = refl
put_details-append ((k, m) ∷ ms) ns out = put_details-append ms ns (put k (detail_of m) out)

or_value-text : (a b : Text) → or_value (text a) (text b) ≡ text (or_text a b)
or_value-text [] b = refl
or_value-text (c ∷ a) b = refl

module _ (p : Fitting) where
  walk_leaf-disk :
      (name device status : Text) (r w c : ℕ) (label : Text) (out : Dict Text Detail)
      → let m : Member = record {
        name = name;
        device = device;
        status = status;
        reads = r;
        writes = w;
        checksums = c;
      } in
        walk_leaf p (disk_fields m) (text label) out ≡ put_details (place label m) out
  unfolding walk_leaf field_at
  walk_leaf-disk name [] status r w c label out = refl
  walk_leaf-disk name (x ∷ device) status r w c label out =
      rw (p.str_text (x ∷ device), or_value-text label name) refl

  walk_leaf-lost :
      (name device status : Text) (r w c : ℕ) (label : Text) (out : Dict Text Detail)
      → let m : Member = record {
        name = name;
        device = device;
        status = status;
        reads = r;
        writes = w;
        checksums = c;
      } in
        walk_leaf p (lost_fields m) (text label) out ≡ put_details (place label m) out
  unfolding walk_leaf field_at
  walk_leaf-lost name [] status r w c label out = refl
  walk_leaf-lost name (x ∷ device) status r w c label out =
      rw (p.str_text (x ∷ device), or_value-text label name) refl

  label_of-group :
      (kind : Kind) (name : Text) (children : Value) (label : Text)
      → label_of p (group_fields kind name children) (text label) ≡ text (or_text name label)
  unfolding label_of field_at upper
  label_of-group mirror name children label =
      rw (p.str_text (codes "MIRROR")) (or_value-text name label)
  label_of-group raidz1 name children label =
      rw (p.str_text (codes "RAIDZ1")) (or_value-text name label)
  label_of-group raidz2 name children label =
      rw (p.str_text (codes "RAIDZ2")) (or_value-text name label)
  label_of-group raidz3 name children label =
      rw (p.str_text (codes "RAIDZ3")) (or_value-text name label)
  label_of-group draid name children label =
      rw (p.str_text (codes "DRAID")) (or_value-text name label)
  label_of-group spare_vdev name children label =
      rw (p.str_text (codes "SPARE")) (or_value-text name label)
  label_of-group replacing name children label =
      rw (p.str_text (codes "REPLACING")) (or_value-text name label)

  walk_all-value_then :
      (v : Vdev) (vs : Vdevs) (label : Text) (out : Dict Text Detail)
      → walk p (encode v) (text label) out ≡ ok (put_details (members v label) out)
      → ((next : Dict Text Detail)
          → walk_all p (encode_all vs) (text label) next
            ≡ ok (put_details (members_all vs label) next))
      → walk_all p (value_then (encode v) (encode_all vs)) (text label) out
        ≡ ok (put_details (members v label ++ members_all vs label) out)
  unfolding walk
  walk_all-value_then v vs label out first rest =
      ap (λ o. o >>= walk_all p (encode_all vs) (text label)) first
      ∙ (rest (put_details (members v label) out)
          ∙ ap ok (sym (put_details-append (members v label) (members_all vs label) out)))

  mutual
    unfolding walk

    pub walk-encode :
        (v : Vdev) (label : Text) (out : Dict Text Detail)
        → walk p (encode v) (text label) out ≡ ok (put_details (members v label) out)
    walk-encode (disk m) label out =
        ap ok (walk_leaf-disk m.name m.device m.status m.reads m.writes m.checksums label out)
    walk-encode (lost m) label out =
        ap ok (walk_leaf-lost m.name m.device m.status m.reads m.writes m.checksums label out)
    walk-encode (group kind name v vs) label out =
        ap (λ (l : Value). walk_all p (value_then (encode v) (encode_all vs)) l out)
          (label_of-group kind name (arr (value_then (encode v) (encode_all vs))) label)
        ∙ walk_all-value_then v vs (or_text name label) out (walk-encode v (or_text name label) out)
            (walk_all-encode vs (or_text name label))

    walk_all-encode :
        (vs : Vdevs) (label : Text) (out : Dict Text Detail)
        → walk_all p (encode_all vs) (text label) out ≡ ok (put_details (members_all vs label) out)
    walk_all-encode none_more label out = refl
    walk_all-encode (more v vs) label out =
        walk_all-value_then v vs label out (walk-encode v label out) (walk_all-encode vs label)

-- ===== src/Correlate/Disks.antt =====
-- `build_disk_index` and `_normalise_lunid` of backend/ktnmgr/truenas/correlate.py.
use ktn_enclosure_manager.Common.{
  ℕ, Bool, true, false, Option, none, some, List, [], ◌∷◌, ◌++◌, if◌then◌else◌, ◌==◌, nat_eq,
  list_eq,
}
use ktn_enclosure_manager.Common.Dict.{Dict, put}
use ktn_enclosure_manager.Common.Text.{Text, codes, strip, lower, starts_with}
use ktn_enclosure_manager.Errors.{Outcome, ok, raise, other_exception, ◌>>=◌}
use ktn_enclosure_manager.Bays.Model.{DiskIdentity}
use ktn_enclosure_manager.Correlate.Json.{
  Value, null, flag, number, text, arr, obj, Fields, field_at, is_true, or_value, upper, Fitting,
}

-- `int(size) if isinstance(size, (int, float)) else None`: a `bool` is an `int`.
abbrev size_of : Value → Option ℕ
size_of (number n) = some n
size_of (flag true) = some 1
size_of (flag false) = some 0
size_of _ = none

-- `bool(rotation) if rotation is not None else None`
abbrev rotates : Value → Option Bool
rotates null = none
rotates (flag b) = some b
rotates (number n) = some (is_true (number n))
rotates (text s) = some (is_true (text s))
rotates (arr xs) = some (is_true (arr xs))
rotates (obj fs) = some (is_true (obj fs))

module _ (p : Fitting) where
  unfoldable pub normalise_lunid : Value → Option Text
  unfolding strip lower starts_with
  normalise_lunid lunid =
      if is_true lunid
      then (let value = lower (strip (p.str lunid)) in
          some (if starts_with (codes "0x") value then value else codes "0x" ++ value))
      else none

  unfoldable pub is_rotational : Fields → Option Bool
  unfolding field_at upper
  is_rotational r =
      if is_true (field_at (codes "type") r)
      then some (upper (p.str (field_at (codes "type") r)) == codes "HDD")
      else rotates (field_at (codes "rotationrate") r)

  unfoldable pub disk_identity : Fields → Outcome DiskIdentity
  unfolding field_at normalise_lunid is_rotational
  disk_identity r = do
    serial ← p.text_field (or_value (field_at (codes "serial") r) null)
    transport ← p.text_field (field_at (codes "bus") r)
    ok (record {
      serial = serial;
      wwn = normalise_lunid (field_at (codes "lunid") r);
      model =
          if is_true (field_at (codes "model") r)
          then some (p.str (field_at (codes "model") r))
          else none;
      firmware = none;
      size_bytes = size_of (field_at (codes "size") r);
      sas_address = none;
      transport = transport;
      rotational = is_rotational r;
    })

  abbrev pub disk_name : Fields → Value
  disk_name r = or_value (field_at (codes "name") r) (field_at (codes "devname") r)

  unfoldable pub index_disks :
      List Value → Dict Text DiskIdentity → Outcome (Dict Text DiskIdentity)
  unfolding field_at disk_identity put
  index_disks [] index = ok index
  index_disks (obj r ∷ records) index = elim (is_true (disk_name r)) [
    | true ↦ (disk_identity r >>= λ d. index_disks records (put (p.str (disk_name r)) d index))
    | false ↦ index_disks records index
  ]
  index_disks (null ∷ records) index = raise other_exception
  index_disks (flag _ ∷ records) index = raise other_exception
  index_disks (number _ ∷ records) index = raise other_exception
  index_disks (text _ ∷ records) index = raise other_exception
  index_disks (arr _ ∷ records) index = raise other_exception

  unfoldable pub build_disk_index : List Value → Outcome (Dict Text DiskIdentity)
  unfolding index_disks
  build_disk_index records = index_disks records []

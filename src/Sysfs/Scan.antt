-- ===== src/Sysfs/Scan.antt =====
-- The reading half of `SysfsEnclosureBackend` of backend/ktnmgr/enclosure/sysfs.py, with
-- `EnclosureRef` of backend/ktnmgr/models.py. A scan reads one state of the kernel's tree.
use ktn_enclosure_manager.Common.{
  ℕ, ℤ, suc_ℤ, Bool, false, not, ◌&&◌, ◌||◌, Option, none, some, List, [], ◌∷◌, length, is_some,
  if◌then◌else◌, ◌==◌, nat_eq, list_eq, int_eq,
}
use ktn_enclosure_manager.Common.Regex.{is_digit, lit, many1, at_end}
use ktn_enclosure_manager.Common.Text.{Text, codes, strip, lower}
use ktn_enclosure_manager.Errors.{Outcome, ok, raise, enclosure_not_found, slot_not_found}
use ktn_enclosure_manager.Bays.Compose.{SlotState, or_empty}
use ktn_enclosure_manager.Locate.Plan.{Ref}
use ktn_enclosure_manager.Sysfs.Tree.{
  Kernel, child, last_part, text_leb, int_leb, sorted, parse_int,
}

pub record EnclosureRef : Type 0 where
  pub logical_id : Text
  pub vendor : Text
  pub product : Text
  pub revision : Text
  pub scsi_address : Text
  pub sysfs_path : Text
  pub sg_device : Option Text
  pub bsg_device : Option Text
  pub slot_count : ℕ

-- The fields that the SES writer reads.
abbrev pub ref_of : EnclosureRef → Ref
ref_of r = record { logical_id = r.logical_id; sg_device = r.sg_device }

-- The constructor's `sysfs_root` and `dev_root`.
pub record Roots : Type 0 where
  pub sysfs_root : Text
  pub dev_root : Text

-- `_SCSI_ADDR_RE.match`
unfoldable pub is_scsi_address : Text → Bool
unfolding lit many1
is_scsi_address s = is_some {A = Unit {0}} (
    many1 is_digit
      (λ a. lit (codes ":") (
        many1 is_digit λ b.
          lit (codes ":") (many1 is_digit λ c. lit (codes ":") (many1 is_digit λ d. at_end tt))))
      s)

abbrev head_of : List Text → Option Text
head_of [] = none
head_of (x ∷ xs) = some x

-- The first child of a directory in the order of the names.
abbrev first_name : List Text → Option Text
first_name ns = head_of (sorted text_leb ns)

module _ {W : Type 0} (k : Kernel W) (w : W) where
  -- `_read_text`
  unfoldable pub read_attribute : Text → Option Text
  unfolding strip
  read_attribute path = elim (k.read_text w path) [ none ↦ none | some t ↦ some (strip t) ]

  -- `value.strip() not in ("0", "", "off")`
  abbrev pub is_on : Option Text → Bool
  is_on none = false
  is_on (some value) =
      not ((strip value == codes "0") || ((strip value == []) || (strip value == codes "off")))

  -- `_read_bool`
  unfoldable pub read_bool : Text → Bool
  unfolding read_attribute strip
  read_bool path = is_on (read_attribute path)

  unfoldable pub sg_device_of : Roots → Text → Option Text
  unfolding sorted text_leb
  sg_device_of roots device =
      let sg_dir = child device (codes "scsi_generic") in
      if k.is_dir w sg_dir
      then elim (first_name (k.names w sg_dir)) [
        | none ↦ none
        | some n ↦ some (child roots.dev_root n)
      ]
      else none

  unfoldable pub bsg_device_of : Roots → Text → Option Text
  bsg_device_of roots address =
      let candidate = child (child roots.dev_root (codes "bsg")) address in
      if k.exists w candidate then some candidate else none

  -- `c.is_dir() and (c / "slot").exists()`, for each child
  abbrev slots_among : Text → List Text → List Text
  slots_among path [] = []
  slots_among path (n ∷ ns) =
      let rest = slots_among path ns in
      if k.is_dir w (child path n) && k.exists w (child (child path n) (codes "slot"))
      then child path n ∷ rest
      else rest

  unfoldable pub slot_dirs : Text → List Text
  slot_dirs path = if k.is_dir w path then slots_among path (k.names w path) else []

  unfoldable pub describe_enclosure : Roots → Text → Option EnclosureRef
  unfolding read_attribute slot_dirs sg_device_of bsg_device_of is_scsi_address last_part strip
      lower
  describe_enclosure roots path =
      let real = if k.is_symlink w path then k.real_path w path else path in
      let device = child real (codes "device") in
      let logical_id = or_empty (read_attribute (child real (codes "id"))) in
      let name = last_part [] path in
      let address = if is_scsi_address name then name else last_part [] real in
      if not (k.is_dir w real) || (logical_id == [])
      then none
      else some (record {
        logical_id = lower (strip logical_id);
        vendor = strip (or_empty (read_attribute (child device (codes "vendor"))));
        product = strip (or_empty (read_attribute (child device (codes "model"))));
        revision = strip (or_empty (read_attribute (child device (codes "rev"))));
        scsi_address = address;
        sysfs_path = real;
        sg_device = sg_device_of roots device;
        bsg_device = bsg_device_of roots address;
        slot_count = length (slot_dirs real);
      })

  abbrev pub described : Roots → Text → List Text → List EnclosureRef
  described roots dir [] = []
  described roots dir (n ∷ ns) =
      let rest = described roots dir ns in
      elim (describe_enclosure roots (child dir n)) [ none ↦ rest | some ref ↦ ref ∷ rest ]

  abbrev pub class_dir : Roots → Text
  class_dir roots = child (child roots.sysfs_root (codes "class")) (codes "enclosure")

  unfoldable pub discover : Roots → List EnclosureRef
  unfolding sorted text_leb describe_enclosure
  discover roots =
      if k.is_dir w (class_dir roots)
      then sorted (λ (a b : EnclosureRef). text_leb a.logical_id b.logical_id)
          (described roots (class_dir roots) (sorted text_leb (k.names w (class_dir roots))))
      else []

  unfoldable pub ref_with : Text → List EnclosureRef → Outcome EnclosureRef
  ref_with target [] = raise enclosure_not_found
  ref_with target (r ∷ rs) = if r.logical_id == target then ok r else ref_with target rs

  unfoldable pub resolve : Roots → Text → Outcome EnclosureRef
  unfolding discover ref_with lower strip
  resolve roots logical_id = ref_with (lower (strip logical_id)) (discover roots)

  unfoldable pub block_device_of : Text → Option Text
  unfolding sorted text_leb
  block_device_of dir =
      let block_dir = child (child dir (codes "device")) (codes "block") in
      if k.is_dir w block_dir then first_name (k.names w block_dir) else none

  -- `int(raw_slot) if raw_slot is not None else int(slot_dir.name)`
  unfoldable pub slot_number_of : Text → Option ℤ
  unfolding read_attribute parse_int last_part
  slot_number_of dir = elim (read_attribute (child dir (codes "slot"))) [
    | some raw ↦ parse_int raw
    | none ↦ parse_int (last_part [] dir)
  ]

  abbrev status_or_unknown : Option Text → Text
  status_or_unknown none = codes "unknown"
  status_or_unknown (some []) = codes "unknown"
  status_or_unknown (some (c ∷ s)) = c ∷ s

  unfoldable pub slot_state : Text → ℤ → SlotState
  unfolding read_attribute read_bool block_device_of
  slot_state dir n = record {
    ses_slot = n;
    display_bay = suc_ℤ n;
    status = status_or_unknown (read_attribute (child dir (codes "status")));
    power_status = read_attribute (child dir (codes "power_status"));
    locate = read_bool (child dir (codes "locate"));
    fault = read_bool (child dir (codes "fault"));
    active =
        if k.exists w (child dir (codes "active"))
        then some (read_bool (child dir (codes "active")))
        else none;
    block_device = block_device_of dir;
    sysfs_path = dir;
  }

  unfoldable pub slot_states : List Text → List SlotState
  unfolding slot_number_of slot_state
  slot_states [] = []
  slot_states (d ∷ ds) = elim (slot_number_of d) [
    | none ↦ slot_states ds
    | some n ↦ slot_state d n ∷ slot_states ds
  ]

  unfoldable pub read_slots : EnclosureRef → List SlotState
  unfolding sorted slot_states slot_dirs
  read_slots ref =
      sorted (λ (a b : SlotState). int_leb a.ses_slot b.ses_slot)
        (slot_states (slot_dirs ref.sysfs_path))

  -- `raw is not None and int(raw) == ses_slot`, an error of `int` as no match
  unfoldable pub carries : Text → ℤ → Bool
  unfolding read_attribute parse_int
  carries dir n = elim (read_attribute (child dir (codes "slot"))) [
    | none ↦ false
    | some raw ↦ elim (parse_int raw) [ none ↦ false | some m ↦ m == n ]
  ]

  unfoldable pub dir_with : ℤ → List Text → Outcome Text
  unfolding carries
  dir_with n [] = raise slot_not_found
  dir_with n (d ∷ ds) = if carries d n then ok d else dir_with n ds

  unfoldable pub slot_dir : EnclosureRef → ℤ → Outcome Text
  unfolding slot_dirs dir_with
  slot_dir ref n = dir_with n (slot_dirs ref.sysfs_path)

  unfoldable pub read_locate : EnclosureRef → ℤ → Outcome Bool
  unfolding slot_dir read_bool
  read_locate ref n = elim (slot_dir ref n) [
    | raise e ↦ raise e
    | ok dir ↦ ok (read_bool (child dir (codes "locate")))
  ]

-- ===== src/Locate/Aes.antt =====
-- The additional element status page as `parse_additional_element_status` of
-- backend/ktnmgr/enclosure/ses_parser.py returns it, and the type names of a drive bay.
use ktn_enclosure_manager.Common.{
  ℕ, Bool, not, ◌&&◌, ◌||◌, Option, none, some, List, [], ◌∷◌, any, ltb, is_some, if◌then◌else◌,
  ◌==◌, nat_eq, list_eq,
}
use ktn_enclosure_manager.Common.Text.{Text, codes}

-- One descriptor; a field that the output did not carry is `none`.
pub record AesEntry : Type 0 where
  pub element_index : Option ℕ
  pub eiioe : Option ℕ
  pub device_slot_number : Option ℕ
  pub sas_address : Option Text

-- `AdditionalElementBlock`
pub record AesBlock : Type 0 where
  pub element_type : Text
  pub subenclosure_id : ℕ
  pub type_index : ℕ
  pub entries : List AesEntry
  pub malformed : Bool

abbrev pub array_device_slot : Text
array_device_slot = codes "Array device slot"

abbrev pub device_slot : Text
device_slot = codes "Device slot"

-- `block.element_type in BAY_ELEMENT_TYPES`
unfoldable pub is_bay : AesBlock → Bool
is_bay b = (b.element_type == array_device_slot) || (b.element_type == device_slot)

-- A `device slot number` under a block that is no bay block.
unfoldable pub is_misattributed : List AesBlock → Bool
unfolding is_bay
is_misattributed =
    any λ b. not (is_bay b) && any (λ (e : AesEntry). is_some e.device_slot_number) b.entries

-- `TypeDescriptor`
pub record TypeDescriptor : Type 0 where
  pub index : ℕ
  pub subenclosure_id : ℕ
  pub element_type : Text
  pub label : Text
  pub count : ℕ

-- The loop of `array_slot_type_index`; `fallback` is `device_slot_fallback`.
unfoldable pub bay_type_from : Option ℕ → List TypeDescriptor → Option ℕ
bay_type_from fallback [] = fallback
bay_type_from fallback (d ∷ ds) =
    let next =
      bay_type_from
        (if ltb 0 d.count && (d.element_type == device_slot) && not (is_some fallback)
          then some d.index
          else fallback)
        ds in
    if ltb 0 d.count && (d.element_type == array_device_slot) then some d.index else next

unfoldable pub array_slot_type_index : List TypeDescriptor → Option ℕ
unfolding bay_type_from
array_slot_type_index = bay_type_from none

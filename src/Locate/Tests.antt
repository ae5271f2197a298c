-- ===== src/Locate/Tests.antt =====
-- Addresses and slot maps of a small shelf.
use ktn_enclosure_manager.Common.{
  ℕ, suc, ℤ, pos, ◌≡◌, false, none, some, List, [], ◌∷◌, ◌↔◌, list_eq, nat_eq,
}
use ktn_enclosure_manager.Common.Dict.{get}
use ktn_enclosure_manager.Common.Text.{Text, codes}
use ktn_enclosure_manager.Locate.Request.{PyValue, str_value}
use ktn_enclosure_manager.Locate.Aes.{AesEntry, AesBlock, TypeDescriptor, array_device_slot}
use ktn_enclosure_manager.Locate.SlotMap.{build_slot_map}
use ktn_enclosure_manager.Locate.Plan.{Ref, Pages, Plans}
use ktn_enclosure_manager.Locate.Addressing.{Addressed, slot_map_exact}

abbrev spaced : PyValue
spaced = str_value (codes " 0x50060480AABBCC00 ")

abbrev address : Text
address = codes "0x50060480aabbcc00"

abbrev valid : Text × ℤ
valid = (address, pos 7)

abbrev entry : ℕ → ℕ → AesEntry
entry i slot = record {
  element_index = some i;
  eiioe = none;
  device_slot_number = some slot;
  sas_address = none;
}

-- Element 0 is slot 5 and element 1 is slot 3.
abbrev crossed : List AesBlock
crossed =
    record {
      element_type = array_device_slot;
      subenclosure_id = 0;
      type_index = 2;
      entries = entry 0 5 ∷ entry 1 3 ∷ [];
      malformed = false;
    }
    ∷ []

slot_map_exact_example :
    (get 3 (build_slot_map crossed 2 2) ≡ some (some 1)) ↔ Addressed crossed 2 2 3 1
slot_map_exact_example = slot_map_exact crossed 2 2 3 1

abbrev third : ℕ
third = 3

abbrev descriptor : Text → ℕ → TypeDescriptor
descriptor kind i = record {
  index = i;
  subenclosure_id = 0;
  element_type = kind;
  label = [];
  count = 2;
}

-- Two power supplies, two fans and two bays.
abbrev pages : Pages ℕ
pages = record {
  configuration = λ w device. (
    some (
        descriptor (codes "Power supply") 0
        ∷ descriptor (codes "Cooling") 1
        ∷ descriptor array_device_slot 2
        ∷ []),
    suc w,
  );
  element_status = λ w device. (some crossed, suc w);
}

abbrev ref : Ref
ref = record { logical_id = address; sg_device = some (codes "/dev/sg16") }

abbrev nothing_cached : Plans
nothing_cached = record { type_index = []; slot_to_element = [] }

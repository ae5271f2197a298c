-- ===== src/Ses/Tests.antt =====
-- Pages of the shelf that backend/tests/ktn-stl3 captures, and shorter ones of other shelves.
use ktn_enclosure_manager.Common.{
  ℤ, pos, negsuc, true, false, none, some, List, [], ◌∷◌, ◌≡◌, refl, map,
}
use ktn_enclosure_manager.Common.Text.{Text, codes, join, splitlines}
use ktn_enclosure_manager.Locate.Aes.{AesBlock, array_device_slot, array_slot_type_index}
use ktn_enclosure_manager.Ses.AesPage.{parse_additional_element_status, classify_line}
use ktn_enclosure_manager.Ses.Sections.{reference_page}
use ktn_enclosure_manager.Ses.Pages.{parse_additional_element_status_lem}
use ktn_enclosure_manager.Ses.Print.{}
use ktn_enclosure_manager.Ses.Elements.{cut_elements, described_elements, parse_join_lem}
use ktn_enclosure_manager.Ses.Configuration.{parse_configuration}
use ktn_enclosure_manager.Ses.Readings.{finalise}
use ktn_enclosure_manager.Ses.Join.{new_element, parse_join, build_telemetry}

abbrev page : List Text → Text
page = join (codes "\n")

abbrev aes_text : Text
aes_text = page (
    codes "Additional element status diagnostic page:"
    ∷ codes "    Element type: Array device slot, subenclosure id: 0 [ti=0]"
    ∷ codes "      Element index: 0  eiioe=0"
    ∷ codes "        number of phys: 1, not all phys: 1, device slot number: 4"
    ∷ codes "          attached SAS address: 0x50060480aabbcc01"
    ∷ codes "          SAS address: 0x5000cca0e0000002"
    ∷ codes "      Element 1 descriptor"
    ∷ codes "        device slot number: 5"
    ∷ codes "    Element type: Device slot, subenclosure id: 0"
    ∷ codes "      Element index: 2"
    ∷ codes "        device slot number: 6"
    ∷ [])

aes_test :
    parse_additional_element_status aes_text
    ≡ record {
      element_type = array_device_slot;
      subenclosure_id = 0;
      type_index = 0;
      entries =
          record {
            element_index = some 0;
            eiioe = some 0;
            device_slot_number = some 4;
            sas_address = some (codes "0x5000cca0e0000002");
          }
          ∷ record {
            element_index = none;
            eiioe = none;
            device_slot_number = some 5;
            sas_address = none;
          }
          ∷ [];
      malformed = false;
    }
      ∷ []
unfolding parse_additional_element_status join
aes_test = refl

abbrev cf_text : Text
cf_text = page (
    codes "    Subenclosure identifier: 0 [primary]"
    ∷ codes "      enclosure logical identifier (hex): 50060480AABBCC00"
    ∷ codes "      enclosure vendor: EMC       product: Viper LCC         rev: 0B70"
    ∷ codes "    Subenclosure identifier: 4"
    ∷ codes "    Element type: Cooling, subenclosure id: 4"
    ∷ codes "      number of possible elements: 2"
    ∷ codes "    Element type: Array device slot, subenclosure id: 0"
    ∷ codes "      number of possible elements: 15"
    ∷ codes "      text: Drive Slots"
    ∷ [])

cf_test : parse_configuration cf_text ≡ (
  record {
    subenclosure_id = 0;
    vendor = codes "EMC";
    product = codes "Viper LCC";
    revision = codes "0B70";
    logical_id = some (codes "50060480aabbcc00");
  }
      ∷ [],
  record { index = 0; subenclosure_id = 4; element_type = codes "Cooling"; label = []; count = 2 }
      ∷ record {
        index = 1;
        subenclosure_id = 0;
        element_type = array_device_slot;
        label = codes "Drive Slots";
        count = 15;
      }
      ∷ [],
)
unfolding parse_configuration join
cf_test = refl

abbrev join_text : Text
join_text = page (
    codes "INVOP=0, INFO=0, NON-CRIT=1, CRIT=0, UNRECOV=0"
    ∷ codes "[1,0]  Element type: Array device slot"
    ∷ codes "    Predicted failure=0, Disabled=0, Swap=0, status: OK"
    ∷ codes "      attached SAS address: 0x50060480aabbcc01"
    ∷ codes "      SAS address: 0x5000cca0e0000002"
    ∷ codes "[0,-1]  Element type: Cooling"
    ∷ codes "    Off=0, Requested on=1, Actual speed=5300 rpm, Fan at highest speed"
    ∷ [])

join_test :
    parse_join join_text (parse_configuration cf_text).1
    ≡ record {
      type_index = pos 1;
      element_index = pos 0;
      subenclosure_id = pos 0;
      element_type = array_device_slot;
      label = codes "Drive Slots";
      status = codes "OK";
      is_overall = false;
      fields =
          (codes "Predicted failure", codes "0")
          ∷ (codes "Disabled", codes "0")
          ∷ (codes "Swap", codes "0")
          ∷ (codes "SAS address", codes "0x5000cca0e0000002")
          ∷ [];
      temperature_c = none;
      speed_rpm = none;
      speed_code = none;
      speed_phrase = none;
      requested_on = none;
    }
      ∷ record {
        type_index = pos 0;
        element_index = negsuc 0;
        subenclosure_id = pos 4;
        element_type = codes "Cooling";
        label = [];
        status = codes "unknown";
        is_overall = true;
        fields =
            (codes "Off", codes "0")
            ∷ (codes "Requested on", codes "1")
            ∷ (codes "Actual speed", codes "5300 rpm")
            ∷ [];
        temperature_c = none;
        speed_rpm = some 5300;
        speed_code = some 7;
        speed_phrase = some (codes "Fan at highest speed");
        requested_on = some true;
      }
      ∷ []
unfolding parse_configuration parse_join join
join_test = refl

flags_test :
    (build_telemetry [] cf_text join_text 0).overall_flags
    ≡ some (record { invop = 0; info = 0; non_crit = 1; crit = 0; unrecov = 0 })
unfolding build_telemetry join
flags_test = refl

parse_additional_element_status_lem_example :
    parse_additional_element_status aes_text
    ≡ reference_page (map classify_line (splitlines aes_text))
parse_additional_element_status_lem_example = parse_additional_element_status_lem aes_text

abbrev malformed_block : AesBlock
malformed_block = record {
  element_type = array_device_slot;
  subenclosure_id = 0;
  type_index = 3;
  entries =
      record {
        element_index = some 42;
        eiioe = none;
        device_slot_number = none;
        sas_address = some (codes "0x5000");
      }
      ∷ [];
  malformed = true;
}

cf_index : array_slot_type_index (parse_configuration cf_text).1 ≡ some 1
unfolding parse_configuration array_slot_type_index join
cf_index = refl

parse_join_lem_example :
    parse_join join_text (parse_configuration cf_text).1
    ≡ described_elements
        (parse_configuration cf_text).1
        (cut_elements (splitlines join_text)).elements
parse_join_lem_example = parse_join_lem join_text (parse_configuration cf_text).1

abbrev fan_lines : List Text
fan_lines = codes "    Actual speed=3100 rpm, Fan at third lowest speed" ∷ []

abbrev fan : ℤ × ℤ × Text
fan = (pos 17, pos 0, codes "Cooling")

fan_code : (finalise (new_element [] fan) fan_lines).speed_code ≡ some 3
unfolding finalise new_element
fan_code = refl

-- A wording that is not in the table is kept, with no code.
unknown_phrase_test :
    ((finalise
        (new_element [] fan)
        (codes "Actual speed=10 rpm, Fan at warp speed" ∷ [])).speed_code
      ≡ none)
    × ((finalise
          (new_element [] fan)
          (codes "Actual speed=10 rpm, Fan at warp speed" ∷ [])).speed_phrase
        ≡ some (codes "Fan at warp speed"))
unfolding finalise new_element
unknown_phrase_test = (refl, refl)

-- ===== src/Ses/AesPage.antt =====
-- `parse_additional_element_status` of backend/ktnmgr/enclosure/ses_parser.py: the loop over the
-- lines of the page. The two references that the loop keeps, `current_block` and `current_entry`,
-- are the cases of the parser's state; a block or an entry that they refer to stands in the state
-- and joins the finished ones when the reference moves on.
use ktn_enclosure_manager.Common.{ℕ, true, false, Option, none, some, List, [], ◌∷◌, ◌++◌, map}
use ktn_enclosure_manager.Common.Text.{Text, splitlines}
use ktn_enclosure_manager.Locate.Aes.{AesEntry, AesBlock}
use ktn_enclosure_manager.Ses.Lines.{
  aes_header, opens_type, aes_element, aes_unindexed, opens_element, slot_number, sas_address_in,
}

-- What the loop's tests make of a line.
pub data AesLine : Type 0 where
  header : Text → ℕ → ℕ → AesLine
  broken_header : AesLine
  indexed : ℕ → Option ℕ → AesLine
  unindexed : AesLine
  unknown_element : AesLine
  detail : Option ℕ → Option Text → AesLine

-- The tests of the loop's body, in its order.
unfoldable pub classify_line : Text → AesLine
unfolding aes_header opens_type aes_element aes_unindexed opens_element slot_number sas_address_in
classify_line l = elim (aes_header l) [
  | some h ↦ header h.0 h.1 h.2
  | none ↦ elim (opens_type l) [
    | some _ ↦ broken_header
    | none ↦ elim (aes_element l) [
      | some e ↦ indexed e.0 e.1
      | none ↦ elim (aes_unindexed l) [
        | some _ ↦ unindexed
        | none ↦ elim (opens_element l) [
          | some _ ↦ unknown_element
          | none ↦ detail (slot_number l) (sas_address_in l)
        ]
      ]
    ]
  ]
]

-- `outside`: no current block; `inside`: a current block and no current entry.
pub data AesState : Type 0 where
  outside : List AesBlock → AesState
  inside : List AesBlock → AesBlock → AesState
  filling : List AesBlock → AesBlock → AesEntry → AesState

abbrev pub append_entry : AesBlock → AesEntry → AesBlock
append_entry b e = record b { entries = b.entries ++ e ∷ [] }

-- The blocks of the state, as `return blocks` finds them.
unfoldable pub blocks : AesState → List AesBlock
blocks (outside done) = done
blocks (inside done b) = done ++ b ∷ []
blocks (filling done b e) = done ++ append_entry b e ∷ []

-- `d.setdefault(key, value)` where there is a value
unfoldable pub set_default {ℓ} : {A : Type ℓ} → Option A → Option A → Option A
set_default (some a) value = some a
set_default none value = value

unfoldable pub fill_details : AesEntry → Option ℕ → Option Text → AesEntry
unfolding set_default
fill_details e slot address = record e {
  device_slot_number = set_default e.device_slot_number slot;
  sas_address = set_default e.sas_address address;
}

abbrev pub new_entry : Option ℕ → Option ℕ → AesEntry
new_entry index eiioe = record {
  element_index = index;
  eiioe = eiioe;
  device_slot_number = none;
  sas_address = none;
}

abbrev pub new_block : Text → ℕ → ℕ → AesBlock
new_block kind sub ti = record {
  element_type = kind;
  subenclosure_id = sub;
  type_index = ti;
  entries = [];
  malformed = false;
}

-- A line that opens an element of the current block: `start` opens the entry.
abbrev pub begin_entry : AesState → AesEntry → AesState
begin_entry (outside done) new = outside done
begin_entry (inside done b) new = filling done b new
begin_entry (filling done b e) new = filling done (append_entry b e) new

abbrev pub mark_malformed : AesBlock → AesBlock
mark_malformed b = record b { malformed = true }

abbrev pub drop_entry : AesState → AesState
drop_entry (outside done) = outside done
drop_entry (inside done b) = inside done (mark_malformed b)
drop_entry (filling done b e) = inside done (mark_malformed (append_entry b e))

abbrev pub fill_entry : AesState → Option ℕ → Option Text → AesState
fill_entry (outside done) slot address = outside done
fill_entry (inside done b) slot address = inside done b
fill_entry (filling done b e) slot address = filling done b (fill_details e slot address)

-- The body of the loop.
unfoldable pub step : AesState → AesLine → AesState
unfolding blocks fill_details
step s (header kind sub ti) = inside (blocks s) (new_block kind sub ti)
step s broken_header = outside (blocks s)
step s (indexed i eiioe) = begin_entry s (new_entry (some i) eiioe)
step s unindexed = begin_entry s (new_entry none none)
step s unknown_element = drop_entry s
step s (detail slot address) = fill_entry s slot address

unfoldable pub run_lines : AesState → List AesLine → AesState
unfolding step
run_lines s [] = s
run_lines s (l ∷ ls) = run_lines (step s l) ls

unfoldable pub parse_additional_element_status : Text → List AesBlock
unfolding run_lines classify_line splitlines blocks
parse_additional_element_status text =
    blocks (run_lines (outside []) (map classify_line (splitlines text)))

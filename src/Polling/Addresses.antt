-- ===== src/Polling/Addresses.antt =====
-- `_slot_sas_addresses` of backend/ktnmgr/services/state.py.
use ktn_enclosure_manager.Common.{
  ℕ, Bool, true, false, not, ◌&&◌, ◌||◌, Option, none, some, List, [], ◌∷◌, is_some, if◌then◌else◌,
  ◌==◌, nat_eq,
}
use ktn_enclosure_manager.Common.Dict.{Dict, get, put}
use ktn_enclosure_manager.Common.Text.{Text}
use ktn_enclosure_manager.Locate.Aes.{AesEntry, AesBlock, is_misattributed, array_slot_type_index}
use ktn_enclosure_manager.Ses.AesPage.{parse_additional_element_status}
use ktn_enclosure_manager.Ses.Configuration.{parse_configuration}

-- The values of `claimed`: `none` once two entries claim the slot, else whether the claim stands
-- in the chosen block, and its address.
abbrev pub Claimed : Type 0
Claimed = Option (Bool × Option Text)

-- The body of the loop over the entries of a block.
unfoldable pub claim_slot : Bool → Option ℕ → Option Text → Dict ℕ Claimed → Dict ℕ Claimed
unfolding get put
claim_slot chosen none address claimed = claimed
claim_slot chosen (some n) address claimed =
    put n (if is_some (get n claimed) then none else some (chosen, address)) claimed

unfoldable pub claim_slots : Bool → List AesEntry → Dict ℕ Claimed → Dict ℕ Claimed
unfolding claim_slot
claim_slots chosen [] claimed = claimed
claim_slots chosen (e ∷ es) claimed =
    claim_slots chosen es (claim_slot chosen e.device_slot_number e.sas_address claimed)

unfoldable pub claim_page : ℕ → Bool → List AesBlock → Dict ℕ Claimed → Dict ℕ Claimed
unfolding claim_slots
claim_page type_index first_chosen_seen [] claimed = claimed
claim_page type_index first_chosen_seen (b ∷ bs) claimed =
    let same = b.type_index == type_index in
    claim_page type_index (first_chosen_seen || same) bs
      (claim_slots (same && not first_chosen_seen) b.entries claimed)

-- The comprehension at the end.
abbrev pub offered : Claimed → Option Text
offered none = none
offered (some (true, some a)) = some a
offered (some (true, none)) = none
offered (some (false, a)) = none

unfoldable pub serve_one : ℕ → Option Text → Dict ℕ Text → Dict ℕ Text
serve_one n none d = d
serve_one n (some a) d = (n, a) ∷ d

unfoldable pub serve_all : Dict ℕ Claimed → Dict ℕ Text
unfolding serve_one
serve_all [] = []
serve_all ((n, c) ∷ claimed) = serve_one n (offered c) (serve_all claimed)

-- The addresses on a page, once the bay type is known.
unfoldable pub page_addresses : ℕ → List AesBlock → Dict ℕ Text
unfolding is_misattributed claim_page serve_all
page_addresses type_index blocks =
    if is_misattributed blocks then [] else serve_all (claim_page type_index false blocks [])

unfoldable pub slot_sas_addresses : Text → Text → Dict ℕ Text
unfolding page_addresses parse_configuration array_slot_type_index parse_additional_element_status
slot_sas_addresses configuration_text aes_text =
    elim (array_slot_type_index (parse_configuration configuration_text).1) [
      | none ↦ []
      | some type_index ↦ page_addresses type_index (parse_additional_element_status aes_text)
    ]

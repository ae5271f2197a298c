-- ===== src/Locate/SlotMap.antt =====
-- `SesLocateWriter._build_slot_map` of backend/ktnmgr/enclosure/locate.py: from the blocks of the
-- additional element status page to the element index of each device slot number.
use ktn_enclosure_manager.Common.{
  ℕ, ◌+◌, ◌-◌, ℤ, pos, negsuc, Bool, false, not, ◌&&◌, ◌||◌, Option, none, some, List, [], ◌∷◌,
  ◌++◌, any, leb, length, if◌then◌else◌, ◌==◌, nat_eq, int_eq,
}
use ktn_enclosure_manager.Common.Dict.{Dict, get, put}
use ktn_enclosure_manager.Locate.Aes.{AesEntry, AesBlock, is_bay, is_misattributed}

-- `element_index - position`
abbrev pub offset : ℕ → ℕ → ℤ
offset index position =
    if leb position index then pos (index - position) else negsuc (position - index - 1)

-- The set comprehension `offsets`, from the position `i` on.
unfoldable pub offsets : ℕ → List AesEntry → List ℤ → List ℤ
offsets i [] found = found
offsets i (e ∷ es) found = offsets (i + 1) es (elim e.element_index [
  | none ↦ found
  | some n ↦ if any (λ o. o == offset n i) found then found else offset n i ∷ found
])

-- What makes the positions of a block trustworthy, besides its being the chosen one.
unfoldable pub is_consistent : ℕ → AesBlock → Bool
unfolding offsets
is_consistent expected_count b =
    leb (length (offsets 0 b.entries [])) 1
    && (not b.malformed && (length b.entries == expected_count))

-- (same_ti, trusted, position)
pub record Claim : Type 0 where
  pub same_ti : Bool
  pub trusted : Bool
  pub position : ℕ

-- `claims.setdefault(slot_number, []).append(claim)`
unfoldable pub add_claim : ℕ → Claim → Dict ℕ (List Claim) → Dict ℕ (List Claim)
unfolding get put
add_claim slot c claims =
    put slot (elim (get slot claims) [ none ↦ c ∷ [] | some cs ↦ cs ++ c ∷ [] ]) claims

-- The loop over the entries of one bay block.
unfoldable pub claim_entries :
    Bool → Bool → ℕ → List AesEntry → Dict ℕ (List Claim) → Dict ℕ (List Claim)
unfolding add_claim
claim_entries same_ti trusted i [] claims = claims
claim_entries same_ti trusted i (e ∷ es) claims =
    claim_entries same_ti trusted (i + 1) es (elim e.device_slot_number [
      | none ↦ claims
      | some slot ↦
          add_claim slot (record { same_ti = same_ti; trusted = trusted; position = i }) claims
    ])

-- The loop over the blocks; `seen` is `first_chosen_seen`.
unfoldable pub claim_blocks :
    ℕ → ℕ → Bool → List AesBlock → Dict ℕ (List Claim) → Dict ℕ (List Claim)
unfolding is_bay is_consistent claim_entries
claim_blocks type_index expected_count seen [] claims = claims
claim_blocks type_index expected_count seen (b ∷ bs) claims =
    let same_ti = b.type_index == type_index in
    let trusted = (same_ti && not seen) && is_consistent expected_count b in
    claim_blocks type_index expected_count (if is_bay b then seen || same_ti else seen) bs
      (if is_bay b then claim_entries same_ti trusted 0 b.entries claims else claims)

-- What becomes of the claims of one slot: an element, a refusal recorded as `none`, or nothing.
unfoldable pub decide_claims : List Claim → Option (Option ℕ)
decide_claims [] = none
decide_claims (c ∷ []) =
    if c.trusted then some (some c.position) else if c.same_ti then some none else none
decide_claims (c ∷ d ∷ cs) = some none

unfoldable pub decide_all : Dict ℕ (List Claim) → Dict ℕ (Option ℕ)
decide_all [] = []
decide_all ((slot, cs) ∷ claims) =
    let rest = decide_all claims in
    elim (decide_claims cs) [ none ↦ rest | some m ↦ (slot, m) ∷ rest ]

unfoldable pub build_slot_map : List AesBlock → ℕ → ℕ → Dict ℕ (Option ℕ)
unfolding is_misattributed claim_blocks decide_claims decide_all
build_slot_map blocks type_index expected_count =
    if is_misattributed blocks
    then []
    else decide_all (claim_blocks type_index expected_count false blocks [])

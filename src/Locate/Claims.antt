-- ===== src/Locate/Claims.antt =====
-- The slot map at one slot: the decision over the claims on that slot, in the order of the page.
use ktn_enclosure_manager.Common.{
  ℕ, ◌+◌, ◌≡◌, refl, ap, ◌∙◌, sym, Bool, false, not, ◌&&◌, ◌||◌, none, some, List, [], ◌∷◌, ◌++◌,
  if◌then◌else◌, ◌==◌, nat_eq, arith, Bool-cases, inl, inr, Option-cases, ==→≡,
}
use mathlib.Core.List.{append_assoc, append-nil}
use ktn_enclosure_manager.Common.Dict.{Once, put-Once, Dict, get, get-put}
use ktn_enclosure_manager.Locate.Aes.{AesEntry, AesBlock, is_bay, is_misattributed}
use ktn_enclosure_manager.Locate.SlotMap.{
  Claim, is_consistent, add_claim, claim_entries, claim_blocks, decide_claims, decide_all,
  build_slot_map,
}

-- The claims on one slot, in the order in which they are found.
unfoldable pub found_entries : ℕ → Bool → Bool → ℕ → List AesEntry → List Claim
found_entries slot same t i [] = []
found_entries slot same t i (e ∷ es) =
    let rest = found_entries slot same t (i + 1) es in
    elim e.device_slot_number [
      | none ↦ rest
      | some s ↦
          if s == slot then record { same_ti = same; trusted = t; position = i } ∷ rest else rest
    ]

unfoldable pub found_blocks : ℕ → ℕ → ℕ → Bool → List AesBlock → List Claim
unfolding found_entries
found_blocks slot ti n seen [] = []
found_blocks slot ti n seen (b ∷ bs) =
    let same = b.type_index == ti in
    let rest = found_blocks slot ti n (if is_bay b then seen || same else seen) bs in
    if is_bay b
    then found_entries slot same ((same && not seen) && is_consistent n b) 0 b.entries ++ rest
    else rest

abbrev claims_at : ℕ → Dict ℕ (List Claim) → List Claim
claims_at k d = elim (get k d) [ none ↦ [] | some cs ↦ cs ]

claims_at-add_claim :
    (k slot : ℕ) (c : Claim) (d : Dict ℕ (List Claim))
    → claims_at k (add_claim slot c d)
      ≡ (if slot == k then claims_at k d ++ c ∷ [] else claims_at k d)
unfolding add_claim
claims_at-add_claim k slot c d =
    let cs : List Claim = elim (get slot d) [ none ↦ c ∷ [] | some l ↦ l ++ c ∷ [] ] in
    elim (Bool-cases (slot == k)) [
      | inl y ↦ ground (arith, get-put slot k cs d, ==→≡ slot k y)
      | inr n ↦ ground (arith, get-put slot k cs d)
    ]

claims_at-entries :
    (k : ℕ) (same t : Bool) (i : ℕ) (es : List AesEntry) (d : Dict ℕ (List Claim))
    → claims_at k (claim_entries same t i es d) ≡ claims_at k d ++ found_entries k same t i es
unfolding claim_entries found_entries
claims_at-entries k same t i [] d = sym (append-nil (claims_at k d))
claims_at-entries k same t i (e ∷ es) d = elim (Option-cases e.device_slot_number) [
  | inl n ↦ rw n (claims_at-entries k same t (i + 1) es d)
  | inr (slot, y) ↦
      let c : Claim = record { same_ti = same; trusted = t; position = i } in
      let ih = claims_at-entries k same t (i + 1) es (add_claim slot c d) in
      let added = claims_at-add_claim k slot c d in
      elim (Bool-cases (slot == k)) [
        | inl eq ↦
            rw (y, eq)
              (ih
                ∙ ap (λ (l : List Claim). l ++ found_entries k same t (i + 1) es) (rw eq at added)
                ∙ append_assoc (claims_at k d) (c ∷ []) (found_entries k same t (i + 1) es))
        | inr ne ↦
            rw (y, ne)
              (ih
                ∙ ap (λ (l : List Claim). l ++ found_entries k same t (i + 1) es) (rw ne at added))
      ]
]

claims_at-blocks :
    (k ti n : ℕ) (seen : Bool) (bs : List AesBlock) (d : Dict ℕ (List Claim))
    → claims_at k (claim_blocks ti n seen bs d) ≡ claims_at k d ++ found_blocks k ti n seen bs
unfolding claim_blocks found_blocks
claims_at-blocks k ti n seen [] d = sym (append-nil (claims_at k d))
claims_at-blocks k ti n seen (b ∷ bs) d = elim (Bool-cases (is_bay b)) [
  | inr other ↦ rw other (claims_at-blocks k ti n seen bs d)
  | inl bay ↦
      let same : Bool = b.type_index == ti in
      let t : Bool = (same && not seen) && is_consistent n b in
      rw bay (
        claims_at-blocks k ti n (seen || same) bs (claim_entries same t 0 b.entries d)
        ∙ ap (λ (l : List Claim). l ++ found_blocks k ti n (seen || same) bs)
            (claims_at-entries k same t 0 b.entries d)
        ∙ append_assoc (claims_at k d) (found_entries k same t 0 b.entries) _)
]

decide_none : decide_claims [] ≡ none
unfolding decide_claims
decide_none = refl

get-decide_all :
    (k : ℕ) (d : Dict ℕ (List Claim))
    → Once d
    → get k (decide_all d) ≡ decide_claims (claims_at k d)
unfolding Once decide_all get
get-decide_all k [] h = sym decide_none
get-decide_all k ((j, cs) ∷ d) h =
    let ih : get k (decide_all d) ≡ decide_claims (claims_at k d) = get-decide_all k d h.1 in
    elim (Bool-cases (j == k)) [
      | inr other ↦
          let here : claims_at k ((j, cs) ∷ d) ≡ claims_at k d = ground arith in
          elim (Option-cases (decide_claims cs)) [
            | inl out ↦ rw (out, get) (ih ∙ ap decide_claims (sym here))
            | inr (m, kept) ↦ rw (kept, get) (rw (other, get) (ih ∙ ap decide_claims (sym here)))
          ]
      | inl same ↦
          let here : claims_at k ((j, cs) ∷ d) ≡ cs = ground arith in
          let absent : claims_at k d ≡ [] = ground (arith, h.0, ==→≡ j k same) in
          elim (Option-cases (decide_claims cs)) [
            | inl out ↦
                rw (out, get)
                  (ih
                    ∙ ap decide_claims absent
                    ∙ decide_none
                    ∙ sym out
                    ∙ ap decide_claims (sym here))
            | inr (m, kept) ↦
                rw (kept, get) (rw (same, get) (sym kept ∙ ap decide_claims (sym here)))
          ]
    ]

add_claim-Once : (k : ℕ) (c : Claim) (d : Dict ℕ (List Claim)) → Once d → Once (add_claim k c d)
unfolding add_claim
add_claim-Once k c d h = put-Once k _ d h

entries-Once :
    (same t : Bool) (i : ℕ) (es : List AesEntry) (d : Dict ℕ (List Claim))
    → Once d
    → Once (claim_entries same t i es d)
unfolding claim_entries
entries-Once same t i [] d h = h
entries-Once same t i (e ∷ es) d h = elim (Option-cases e.device_slot_number) [
  | inl n ↦ rw n (entries-Once same t (i + 1) es d h)
  | inr (slot, y) ↦ rw y (entries-Once same t (i + 1) es _ (add_claim-Once slot _ d h))
]

blocks-Once :
    (ti n : ℕ) (seen : Bool) (bs : List AesBlock) (d : Dict ℕ (List Claim))
    → Once d
    → Once (claim_blocks ti n seen bs d)
unfolding claim_blocks
blocks-Once ti n seen [] d h = h
blocks-Once ti n seen (b ∷ bs) d h = elim (Bool-cases (is_bay b)) [
  | inr other ↦ rw other (blocks-Once ti n seen bs d h)
  | inl bay ↦
      rw bay (blocks-Once ti n (seen || b.type_index == ti) bs _ (entries-Once _ _ 0 b.entries d h))
]

-- The map of a page with no misattributed block, at one slot.
pub get-build_slot_map :
    (k ti n : ℕ) (bs : List AesBlock)
    → is_misattributed bs ≡ false
    → get k (build_slot_map bs ti n) ≡ decide_claims (found_blocks k ti n false bs)
unfolding build_slot_map get
get-build_slot_map k ti n bs clean = rw clean (
    get-decide_all k _ (blocks-Once ti n false bs [] (unfold Once in tt))
    ∙ ap decide_claims (claims_at-blocks k ti n false bs []))

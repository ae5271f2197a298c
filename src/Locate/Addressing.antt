-- ===== src/Locate/Addressing.antt =====
-- The slot map never guesses: an element is addressed exactly where the page leaves no doubt.
use ktn_enclosure_manager.Common.{
  ℕ, ◌≡◌, refl, ap, ◌∙◌, sym, true, false, none, some, List, [], ◌∷◌, length, nat_eq, arith,
  Bool-cases, inl, inr, ◌↔◌,
}
use ktn_enclosure_manager.Common.Dict.{get}
use ktn_enclosure_manager.Locate.Aes.{AesBlock, is_misattributed}
use ktn_enclosure_manager.Locate.SlotMap.{Claim, is_consistent, decide_claims, build_slot_map}
use ktn_enclosure_manager.Locate.Claims.{found_blocks, get-build_slot_map}
use ktn_enclosure_manager.Locate.Chosen.{
  slot_at, chosen_block, claim_count, length-found_blocks, blocks_sound, blocks_complete,
}

-- Element `pos` of the first bay block of the type descriptor carries the slot number, that block
-- is consistent with the configuration page, no other entry of a bay block carries the number,
-- and no other kind of block carries any.
pub record Addressed (bs : List AesBlock) (ti n slot pos : ℕ) : Type 0 where
  pub block : AesBlock
  pub clean : is_misattributed bs ≡ false
  pub chosen : chosen_block ti bs ≡ some block
  pub consistent : is_consistent n block ≡ true
  pub at : slot_at block.entries pos ≡ some slot
  pub alone : claim_count slot bs ≡ 1

decide_sound :
    (cs : List Claim) (pos : ℕ)
    → decide_claims cs ≡ some (some pos)
    → (c : Claim) × (cs ≡ c ∷ []) × (c.trusted ≡ true) × (c.position ≡ pos)
unfolding decide_claims
decide_sound [] pos h = cc
decide_sound (c ∷ []) pos h = (c, refl, ground arith, ground arith)
decide_sound (c ∷ d ∷ cs) pos h = cc

misattributed_empty :
    (slot ti n : ℕ) (bs : List AesBlock)
    → is_misattributed bs ≡ true
    → get slot (build_slot_map bs ti n) ≡ none
unfolding build_slot_map get
misattributed_empty slot ti n bs h = rw h refl

slot_map_sound :
    (bs : List AesBlock) (ti n slot pos : ℕ)
    → get slot (build_slot_map bs ti n) ≡ some (some pos)
    → Addressed bs ti n slot pos
slot_map_sound bs ti n slot pos h = elim (Bool-cases (is_misattributed bs)) [
  | inl bad ↦ cc (misattributed_empty slot ti n bs bad)
  | inr clean ↦
      let found = get-build_slot_map slot ti n bs clean in
      let (c, one, trusted, p) =
        decide_sound (found_blocks slot ti n false bs) pos (sym found ∙ h) in
      let (b, _, ch, co, at) = blocks_sound slot ti n false bs c one trusted in
      record {
        block = b;
        clean = clean;
        chosen = ch;
        consistent = co;
        at = rw p at at;
        alone = omega (arith, length-found_blocks slot ti n false bs, ap (length {0}) one);
      }
]

slot_map_complete :
    (bs : List AesBlock) (ti n slot pos : ℕ)
    → Addressed bs ti n slot pos
    → get slot (build_slot_map bs ti n) ≡ some (some pos)
unfolding decide_claims
slot_map_complete bs ti n slot pos a =
    get-build_slot_map slot ti n bs a.clean
    ∙ ap decide_claims (blocks_complete slot ti n pos bs a.block a.chosen a.consistent a.at a.alone)

-- The map gives the element `pos` for a slot number exactly when that element of the first bay
-- block of the type descriptor carries the number, the block is well formed, its printed indexes
-- sit at one offset and its length is the declared count, no other entry of any bay block
-- carries the number, and no other kind of block carries a slot number at all.
pub slot_map_exact :
    (bs : List AesBlock) (ti n slot pos : ℕ)
    → (get slot (build_slot_map bs ti n) ≡ some (some pos)) ↔ Addressed bs ti n slot pos
slot_map_exact bs ti n slot pos =
    (slot_map_sound bs ti n slot pos, slot_map_complete bs ti n slot pos)

-- Two slot numbers are never given the same element.
pub slot_map_injective :
    (bs : List AesBlock) (ti n slot slot' pos : ℕ)
    → get slot (build_slot_map bs ti n) ≡ some (some pos)
    → get slot' (build_slot_map bs ti n) ≡ some (some pos)
    → slot ≡ slot'
slot_map_injective bs ti n slot slot' pos h h' =
    let a = slot_map_sound bs ti n slot pos h in
    let a' = slot_map_sound bs ti n slot' pos h' in
    let same : a.block ≡ a'.block = cc (a.chosen, a'.chosen) in
    cc (a.at, a'.at, ap (λ (b : AesBlock). slot_at b.entries pos) same)

-- ===== src/Locate/Chosen.antt =====
-- The claims on a slot against the entries of the page: which entry a lone trusted claim is.
use ktn_enclosure_manager.Common.{
  ℕ, zero, suc, ◌+◌, ◌≡◌, refl, Bool, true, false, not, ◌&&◌, ◌||◌, Option, none, some, List, [],
  ◌∷◌, ◌++◌, length, get_elem?, if◌then◌else◌, ◌==◌, nat_eq, arith, Bool-cases, inl, inr, ◌⊎◌, ◌≤◌,
  length-append, Option-cases, ==→≡,
}
use ktn_enclosure_manager.Locate.Aes.{AesEntry, AesBlock, is_bay}
use ktn_enclosure_manager.Locate.SlotMap.{Claim, is_consistent}
use ktn_enclosure_manager.Locate.Claims.{found_entries, found_blocks}

-- The slot number of the entry at a position.
abbrev pub slot_at : List AesEntry → ℕ → Option ℕ
slot_at es i = elim (get_elem? es i) [ none ↦ none | some e ↦ e.device_slot_number ]

-- The first bay block of the type descriptor.
abbrev pub chosen_block : ℕ → List AesBlock → Option AesBlock
chosen_block ti [] = none
chosen_block ti (b ∷ bs) = if is_bay b && (b.type_index == ti) then some b else chosen_block ti bs

abbrev pub entry_count : ℕ → List AesEntry → ℕ
entry_count slot [] = 0
entry_count slot (e ∷ es) = elim e.device_slot_number [
  | none ↦ entry_count slot es
  | some s ↦ if s == slot then 1 + entry_count slot es else entry_count slot es
]

-- How many entries of bay blocks carry the slot number.
abbrev pub claim_count : ℕ → List AesBlock → ℕ
claim_count slot [] = 0
claim_count slot (b ∷ bs) =
    (if is_bay b then entry_count slot b.entries else 0) + claim_count slot bs

length-found_entries :
    (k : ℕ) (same t : Bool) (i : ℕ) (es : List AesEntry)
    → length (found_entries k same t i es) ≡ entry_count k es
unfolding found_entries
length-found_entries k same t i [] = refl
length-found_entries k same t i (e ∷ es) = ground (arith, length-found_entries k same t (i + 1) es)

pub length-found_blocks :
    (k ti n : ℕ) (seen : Bool) (bs : List AesBlock)
    → length (found_blocks k ti n seen bs) ≡ claim_count k bs
unfolding found_blocks
length-found_blocks k ti n seen [] = refl
length-found_blocks k ti n seen (b ∷ bs) =
    let same : Bool = b.type_index == ti in
    let t : Bool = (same && not seen) && is_consistent n b in
    elim (Bool-cases (is_bay b)) [
      | inr other ↦ rw other (omega (arith, length-found_blocks k ti n seen bs))
      | inl bay ↦ rw bay (
          omega (
            arith,
            length-append {0} (found_entries k same t 0 b.entries)
                (found_blocks k ti n (seen || same) bs),
            length-found_entries k same t 0 b.entries,
            length-found_blocks k ti n (seen || same) bs,
          ))
    ]

-- A claim that stands alone among those of a block is that of one entry.
abbrev EntryClaim : ℕ → Bool → ℕ → List AesEntry → Claim → Type 0
EntryClaim k t i es c = (j : ℕ) × (c.position ≡ i + j) × (slot_at es j ≡ some k) × (c.trusted ≡ t)

entry_sound :
    (k : ℕ) (same t : Bool) (i : ℕ) (es : List AesEntry) (c : Claim)
    → found_entries k same t i es ≡ c ∷ []
    → EntryClaim k t i es c
unfolding found_entries
entry_sound k same t i [] c h = cc
entry_sound k same t i (e ∷ es) c h = elim (Option-cases e.device_slot_number) [
  | inl n ↦ later (entry_sound k same t (i + 1) es c (rw n at h))
  | inr (slot, y) ↦ elim (Bool-cases (slot == k)) [
    | inl eq ↦ (zero, ground arith, ground (arith, ==→≡ slot k eq), ground arith)
    | inr ne ↦ later (entry_sound k same t (i + 1) es c (rw ne at (rw y at h)))
  ]
]
  where
    later : EntryClaim k t (i + 1) es c → EntryClaim k t i (e ∷ es) c
    later (j, p, s, u) = (suc j, omega arith, s, u)

append_one :
    (xs ys : List Claim) (c : Claim)
    → xs ++ ys ≡ c ∷ []
    → ((xs ≡ c ∷ []) × (ys ≡ [])) ⊎ ((xs ≡ []) × (ys ≡ c ∷ []))
append_one [] ys c h = inr (refl, h)
append_one (x ∷ []) ys c h = inl (cc, cc)
append_one (x ∷ y ∷ xs) ys c h = absurd (cc)

-- A trusted claim that stands alone is one of the chosen block.
abbrev pub Chosen : ℕ → ℕ → ℕ → Bool → List AesBlock → Claim → Type 0
Chosen k ti n seen bs c =
    (b : AesBlock) × (seen ≡ false)
    × (chosen_block ti bs ≡ some b)
    × (is_consistent n b ≡ true)
    × (slot_at b.entries c.position ≡ some k)

pub blocks_sound :
    (k ti n : ℕ) (seen : Bool) (bs : List AesBlock) (c : Claim)
    → found_blocks k ti n seen bs ≡ c ∷ []
    → c.trusted ≡ true
    → Chosen k ti n seen bs c
unfolding found_blocks
blocks_sound k ti n seen [] c h trusted = cc
blocks_sound k ti n seen (b ∷ bs) c h trusted =
    let same : Bool = b.type_index == ti in
    let t : Bool = (same && not seen) && is_consistent n b in
    let here : List Claim = found_entries k same t 0 b.entries in
    let rest : List Claim = found_blocks k ti n (seen || same) bs in
    elim (Bool-cases (is_bay b)) [
      | inr other ↦
          let (x, s, ch, co, at) = blocks_sound k ti n seen bs c (rw other at h) trusted in
          (x, s, rw other ch, co, at)
      | inl bay ↦ elim (append_one here rest c (rw bay at h)) [
        | inr (none_here, in_rest) ↦
            let (x, s, ch, co, at) = blocks_sound k ti n (seen || same) bs c in_rest trusted in
            let e : same ≡ false = ground arith in (x, ground arith, rw (bay, e) ch, co, at)
        | inl (one, _) ↦
            let (j, p, s, u) = entry_sound k same t 0 b.entries c one in
            let e : same ≡ true = ground arith in
            let p' : c.position ≡ j = omega arith in
            (b, ground arith, rw (bay, e) refl, ground arith, rw p' s)
      ]
    ]

empty_of_length {ℓ} : {A : Type ℓ} (xs : List A) → length xs ≡ 0 → xs ≡ []
empty_of_length [] h = refl
empty_of_length (x ∷ xs) h = absurd (omega arith)

-- The entry that carries the number is counted.
slot_at_counted :
    (k : ℕ) (es : List AesEntry) (j : ℕ) → slot_at es j ≡ some k → 1 ≤ entry_count k es
slot_at_counted k [] j h = cc
slot_at_counted k (e ∷ es) zero h = ground arith
slot_at_counted k (e ∷ es) (suc j) h = ground (arith, slot_at_counted k es j h)

chosen_counted :
    (k ti j : ℕ) (bs : List AesBlock) (b : AesBlock)
    → chosen_block ti bs ≡ some b
    → slot_at b.entries j ≡ some k
    → 1 ≤ claim_count k bs
chosen_counted k ti j [] b ch at = cc
chosen_counted k ti j (x ∷ bs) b ch at = elim (Bool-cases (is_bay x && (x.type_index == ti))) [
  | inl y ↦
      let e : x ≡ b = cc (rw y at ch) in
      let counted : 1 ≤ entry_count k x.entries = slot_at_counted k x.entries j (rw e at) in
      ground arith
  | inr n ↦ ground (arith, chosen_counted k ti j bs b (rw n at ch) at)
]

entry_complete :
    (k : ℕ) (same t : Bool) (i j p : ℕ) (es : List AesEntry)
    → slot_at es j ≡ some k
    → entry_count k es ≤ 1
    → p ≡ i + j
    → found_entries k same t i es ≡ record { same_ti = same; trusted = t; position = p } ∷ []
unfolding found_entries
entry_complete k same t i j p [] at few e = cc
entry_complete k same t i zero p (x ∷ es) at few e =
    let rest : found_entries k same t (i + 1) es ≡ [] =
      empty_of_length _ (ground (arith, length-found_entries k same t (i + 1) es)) in
    ground arith
entry_complete k same t i (suc j) p (x ∷ es) at few e =
    let counted : 1 ≤ entry_count k es = slot_at_counted k es j at in
    ground (arith, entry_complete k same t (i + 1) j p es at)

pub blocks_complete :
    (k ti n pos : ℕ) (bs : List AesBlock) (b : AesBlock)
    → chosen_block ti bs ≡ some b
    → is_consistent n b ≡ true
    → slot_at b.entries pos ≡ some k
    → claim_count k bs ≡ 1
    → found_blocks k ti n false bs ≡ record { same_ti = true; trusted = true; position = pos } ∷ []
unfolding found_blocks
blocks_complete k ti n pos [] b ch co at one = cc
blocks_complete k ti n pos (x ∷ bs) b ch co at one = elim (Bool-cases (is_bay x)) [
  | inr other ↦ rw other (blocks_complete k ti n pos bs b (rw other at ch) co at (ground arith))
  | inl bay ↦ elim (Bool-cases (x.type_index == ti)) [
    | inr differs ↦
        let ch' : chosen_block ti bs ≡ some b = rw (bay, differs) at ch in
        let counted : 1 ≤ claim_count k bs = chosen_counted k ti pos bs b ch' at in
        let none_here : found_entries k false false 0 x.entries ≡ [] =
          empty_of_length _ (ground (arith, length-found_entries k false false 0 x.entries)) in
        rw (bay, differs) (rw none_here (blocks_complete k ti n pos bs b ch' co at (ground arith)))
    | inl same ↦
        let e : x ≡ b = cc (rw (bay, same) at ch) in
        let at' : slot_at x.entries pos ≡ some k = rw e at in
        let counted : 1 ≤ entry_count k x.entries = slot_at_counted k x.entries pos at' in
        let co' : is_consistent n x ≡ true = rw e co in
        let here : found_entries k true true 0 x.entries
            ≡ record { same_ti = true; trusted = true; position = pos } ∷ [] =
          entry_complete k true true 0 pos pos x.entries at' (ground arith) (omega arith) in
        let none_later : found_blocks k ti n true bs ≡ [] =
          empty_of_length _ (ground (arith, length-found_blocks k ti n true bs)) in
        rw (bay, same) (rw co' (rw (here, none_later) refl))
  ]
]

-- ===== src/Polling/Claimed.antt =====
-- The SAS addresses of a page, as `_slot_sas_addresses` of backend/ktnmgr/services/state.py serves
-- them, against a description by the entries that carry the slot number.
use ktn_enclosure_manager.Common.{
  ℕ, Bool, true, false, not, ◌&&◌, ◌||◌, Option, none, some, List, [], ◌∷◌, ◌++◌, is_some,
  if◌then◌else◌, ◌==◌, nat_eq, ◌≡◌, refl, arith, Bool-cases, inl, inr, ◌∙◌, ap, sym, ==→≡,
}
use ktn_enclosure_manager.Common.Dict.{Dict, get, get-put, Once, put-Once}
use ktn_enclosure_manager.Common.Text.{Text}
use ktn_enclosure_manager.Locate.Aes.{AesEntry, AesBlock, is_misattributed}
use ktn_enclosure_manager.Polling.Addresses.{
  Claimed, claim_slot, claim_slots, claim_page, offered, serve_one, serve_all, page_addresses,
}

-- The claims of a slot by the entries of a block and of a page, in order: whether the block is the
-- first of its type, and the address.
unfoldable pub entry_claims : ℕ → Bool → Option ℕ → Option Text → List (Bool × Option Text)
entry_claims n chosen none address = []
entry_claims n chosen (some m) address = if m == n then (chosen, address) ∷ [] else []

unfoldable pub block_claims : ℕ → Bool → List AesEntry → List (Bool × Option Text)
unfolding entry_claims
block_claims n chosen [] = []
block_claims n chosen (e ∷ es) =
    entry_claims n chosen e.device_slot_number e.sas_address ++ block_claims n chosen es

unfoldable pub page_claims : ℕ → ℕ → Bool → List AesBlock → List (Bool × Option Text)
unfolding block_claims
page_claims n type_index seen [] = []
page_claims n type_index seen (b ∷ bs) =
    block_claims n ((b.type_index == type_index) && not seen) b.entries
    ++ page_claims n type_index (seen || (b.type_index == type_index)) bs

-- The address of the only claim, if it stands in the chosen block.
abbrev pub sole_address : List (Bool × Option Text) → Option Text
sole_address [] = none
sole_address ((true, a) ∷ []) = a
sole_address ((false, a) ∷ []) = none
sole_address (c ∷ d ∷ cs) = none

abbrev claim_after : Option Claimed → List (Bool × Option Text) → Option Claimed
claim_after c [] = c
claim_after c (x ∷ xs) = claim_after (some (if is_some c then none else some x)) xs

claim_after-append :
    (c : Option Claimed) (xs ys : List (Bool × Option Text))
    → claim_after c (xs ++ ys) ≡ claim_after (claim_after c xs) ys
claim_after-append c [] ys = refl
claim_after-append c (x ∷ xs) ys =
    claim_after-append (some (if is_some c then none else some x)) xs ys

poisoned : (xs : List (Bool × Option Text)) → claim_after (some none) xs ≡ some none
poisoned [] = refl
poisoned (x ∷ xs) = poisoned xs

get-claim_slot :
    (n : ℕ) (chosen : Bool) (o : Option ℕ) (a : Option Text) (d : Dict ℕ Claimed)
    → get n (claim_slot chosen o a d) ≡ claim_after (get n d) (entry_claims n chosen o a)
unfolding claim_slot entry_claims
get-claim_slot n chosen none a d = refl
get-claim_slot n chosen (some m) a d = elim (Bool-cases (m == n)) [
  | inl same ↦ rw same (
      get-put m n (if is_some (get m d) then none else some (chosen, a)) d
      ∙ rw (same, ==→≡ m n same) refl)
  | inr other ↦
      rw other
        (get-put m n (if is_some (get m d) then none else some (chosen, a)) d ∙ rw other refl)
]

get-claim_slots :
    (n : ℕ) (chosen : Bool) (es : List AesEntry) (d : Dict ℕ Claimed)
    → get n (claim_slots chosen es d) ≡ claim_after (get n d) (block_claims n chosen es)
unfolding claim_slots block_claims
get-claim_slots n chosen [] d = refl
get-claim_slots n chosen (e ∷ es) d =
    get-claim_slots n chosen es (claim_slot chosen e.device_slot_number e.sas_address d)
    ∙ (ap (λ c. claim_after c (block_claims n chosen es))
          (get-claim_slot n chosen e.device_slot_number e.sas_address d)
        ∙ sym (
            claim_after-append (get n d) (entry_claims n chosen e.device_slot_number e.sas_address)
              (block_claims n chosen es)))

get-claim_page :
    (n ti : ℕ) (seen : Bool) (bs : List AesBlock) (d : Dict ℕ Claimed)
    → get n (claim_page ti seen bs d) ≡ claim_after (get n d) (page_claims n ti seen bs)
unfolding claim_page page_claims
get-claim_page n ti seen [] d = refl
get-claim_page n ti seen (b ∷ bs) d =
    get-claim_page n ti (seen || (b.type_index == ti)) bs _
    ∙ (ap (λ c. claim_after c (page_claims n ti (seen || (b.type_index == ti)) bs))
          (get-claim_slots n ((b.type_index == ti) && not seen) b.entries d)
        ∙ sym (
            claim_after-append (get n d)
              (block_claims n ((b.type_index == ti) && not seen) b.entries)
              (page_claims n ti (seen || (b.type_index == ti)) bs)))

claim_slot-Once :
    (chosen : Bool) (o : Option ℕ) (a : Option Text) (d : Dict ℕ Claimed)
    → Once d
    → Once (claim_slot chosen o a d)
unfolding claim_slot
claim_slot-Once chosen none a d h = h
claim_slot-Once chosen (some n) a d h =
    put-Once n (if is_some (get n d) then none else some (chosen, a)) d h

claim_slots-Once :
    (chosen : Bool) (es : List AesEntry) (d : Dict ℕ Claimed)
    → Once d
    → Once (claim_slots chosen es d)
unfolding claim_slots
claim_slots-Once chosen [] d h = h
claim_slots-Once chosen (e ∷ es) d h =
    claim_slots-Once chosen es _ (claim_slot-Once chosen e.device_slot_number e.sas_address d h)

claim_page-Once :
    (ti : ℕ) (seen : Bool) (bs : List AesBlock) (d : Dict ℕ Claimed)
    → Once d
    → Once (claim_page ti seen bs d)
unfolding claim_page
claim_page-Once ti seen [] d h = h
claim_page-Once ti seen (b ∷ bs) d h =
    claim_page-Once ti (seen || (b.type_index == ti)) bs _ (claim_slots-Once _ b.entries d h)

abbrev served_at : Option Claimed → Option Text
served_at none = none
served_at (some c) = offered c

abbrev first_of : Option Text → Option Text → Option Text
first_of none b = b
first_of (some a) b = some a

get-serve_one :
    (n m : ℕ) (o : Option Text) (d : Dict ℕ Text)
    → get n (serve_one m o d) ≡ (if m == n then first_of o (get n d) else get n d)
unfolding get serve_one
get-serve_one n m none d = ground arith
get-serve_one n m (some a) d = refl

first_none : (o : Option Text) → first_of o none ≡ o
first_none none = refl
first_none (some a) = refl

get-serve_all : (n : ℕ) (d : Dict ℕ Claimed) → Once d → get n (serve_all d) ≡ served_at (get n d)
unfolding get serve_all Once
get-serve_all n [] h = refl
get-serve_all n ((m, c) ∷ d) h =
    get-serve_one n m (offered c) (serve_all d) ∙ elim (Bool-cases (m == n)) [
      | inl same ↦ rw (same, get-serve_all n d h.1, ← ==→≡ m n same, h.0) (first_none (offered c))
      | inr other ↦ rw other (get-serve_all n d h.1)
    ]

get_empty : (n : ℕ) (V : Type 0) → get {K = ℕ} {V = V} n [] ≡ none
unfolding get
get_empty n V = refl

empty-Once : (V : Type 0) → Once {K = ℕ} {V = V} []
unfolding Once
empty-Once V = tt

sole-claim_after :
    (xs : List (Bool × Option Text)) → served_at (claim_after none xs) ≡ sole_address xs
sole-claim_after [] = refl
sole-claim_after ((true, none) ∷ []) = refl
sole-claim_after ((true, some a) ∷ []) = refl
sole-claim_after ((false, a) ∷ []) = refl
sole-claim_after ((c, a) ∷ y ∷ ys) = rw (poisoned ys) refl

-- An address is served for a slot exactly when no block of another kind carries a slot number, one
-- entry of the whole page carries this one, it stands in the first block of the bay type, and an
-- address was printed for it, which is the one served.
pub page_addresses_lem :
    (ti : ℕ) (bs : List AesBlock) (n : ℕ)
    → get n (page_addresses ti bs)
      ≡ (if is_misattributed bs then none else sole_address (page_claims n ti false bs))
unfolding page_addresses
page_addresses_lem ti bs n = elim (Bool-cases (is_misattributed bs)) [
  | inl bad ↦ rw bad (get_empty n Text)
  | inr fine ↦ rw fine (
      get-serve_all n (claim_page ti false bs [])
        (claim_page-Once ti false bs [] (empty-Once Claimed))
      ∙ (ap served_at (get-claim_page n ti false bs [])
          ∙ (ap (λ c. served_at (claim_after c (page_claims n ti false bs))) (get_empty n Claimed)
              ∙ sole-claim_after (page_claims n ti false bs))))
]

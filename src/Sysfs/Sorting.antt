-- ===== src/Sysfs/Sorting.antt =====
-- Python's `sorted`, which backend/ktnmgr/enclosure/sysfs.py applies to names, enclosures and slots.
use ktn_enclosure_manager.Common.{
  ℤ, Bool, true, false, List, [], ◌∷◌, nat_eq, ◌≡◌, refl, Bool-cases, inl, inr, arith,
}
use mathlib.Core.List.{Memᴰ}
use mathlib.Core.List.Memᴰ
use mathlib.Core.List.Memᴰ.{head, tail}
use ktn_enclosure_manager.Common.Text.{Text}
use ktn_enclosure_manager.Sysfs.Tree.{insert, sorted, int_leb, text_leb}

module _ {A : Type 0} (before : A → A → Bool) where
  insert-here : (x : A) (ys : List A) → Memᴰ x (insert before x ys)
  unfolding insert
  insert-here x [] = head refl
  insert-here x (y ∷ ys) = elim (Bool-cases (before x y)) [
    | inl b ↦ rw (b, insert) (head refl)
    | inr b ↦ rw (b, insert) (tail (insert-here x ys))
  ]

  insert-Mem : (x : A) {z : A} {ys : List A} → Memᴰ z ys → Memᴰ z (insert before x ys)
  unfolding insert
  insert-Mem x {ys = []} m = elim m [ ]
  insert-Mem x {ys = y ∷ ys} (head e) = elim (Bool-cases (before x y)) [
    | inl b ↦ rw (b, insert) (tail (head e))
    | inr b ↦ rw (b, insert) (head e)
  ]
  insert-Mem x {ys = y ∷ ys} (tail m) = elim (Bool-cases (before x y)) [
    | inl b ↦ rw (b, insert) (tail (tail m))
    | inr b ↦ rw (b, insert) (tail (insert-Mem x m))
  ]

  pub sorted-Mem : {z : A} {xs : List A} → Memᴰ z xs → Memᴰ z (sorted before xs)
  unfolding sorted
  sorted-Mem {xs = []} m = elim m [ ]
  sorted-Mem {z = z} {xs = x ∷ xs} (head e) = Memᴰ.cast e (insert-here x (sorted before xs))
  sorted-Mem {xs = x ∷ xs} (tail m) = insert-Mem x (sorted-Mem m)

  -- Each element comes before the next one.
  pub data IsSorted : List A → Type 0 where
    nil_sorted : IsSorted []
    one_sorted : {x : A} → IsSorted (x ∷ [])
    next_sorted :
        {x y : A} {ys : List A} → before x y ≡ true → IsSorted (y ∷ ys) → IsSorted (x ∷ y ∷ ys)

  module _ (total : (x y : A) → before x y ≡ false → before y x ≡ true) where
    insert-IsSorted : (x : A) {ys : List A} → IsSorted ys → IsSorted (insert before x ys)
    unfolding insert
    insert-IsSorted x nil_sorted = one_sorted
    insert-IsSorted x {ys = y ∷ []} one_sorted = elim (Bool-cases (before x y)) [
      | inl b ↦ rw (b, insert) (next_sorted b one_sorted)
      | inr b ↦ rw (b, insert) (next_sorted (total x y b) one_sorted)
    ]
    insert-IsSorted x {ys = y ∷ z ∷ ys} (next_sorted e s) = elim (Bool-cases (before x y)) [
      | inl b ↦ rw (b, insert) (next_sorted b (next_sorted e s))
      | inr b ↦ elim (Bool-cases (before x z)) [
        | inl c ↦ rw (b, c, insert) (next_sorted (total x y b) (next_sorted c s))
        | inr c ↦
            let rest = insert-IsSorted x s in
            rw (b, c, insert) (next_sorted e (rw (c, insert) at rest))
      ]
    ]

    pub sorted-IsSorted : (xs : List A) → IsSorted (sorted before xs)
    unfolding sorted
    sorted-IsSorted [] = nil_sorted
    sorted-IsSorted (x ∷ xs) = insert-IsSorted x (sorted-IsSorted xs)

pub int_leb-total : (x y : ℤ) → int_leb x y ≡ false → int_leb y x ≡ true
int_leb-total (ℤ.pos a) (ℤ.pos b) h = ground arith
int_leb-total (ℤ.pos a) (ℤ.negsuc b) h = refl
int_leb-total (ℤ.negsuc a) (ℤ.pos b) h = cc
int_leb-total (ℤ.negsuc a) (ℤ.negsuc b) h = ground arith

pub text_leb-total : (x y : Text) → text_leb x y ≡ false → text_leb y x ≡ true
unfolding text_leb
text_leb-total [] y h = cc
text_leb-total (a ∷ x) [] h = refl
text_leb-total (a ∷ x) (b ∷ y) h = let rest = text_leb-total x y in ground arith

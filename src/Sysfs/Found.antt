-- ===== src/Sysfs/Found.antt =====
-- What the scans of backend/ktnmgr/enclosure/sysfs.py find.
use ktn_enclosure_manager.Common.{
  ℤ, Bool, true, some, List, [], ◌∷◌, ◌==◌, ==→≡, int_eq, nat_eq, list_eq, ◌≡◌, sym, ap, subst,
  Bool-cases, Option-cases, inl, inr,
}
use mathlib.Core.List.{Memᴰ}
use mathlib.Core.List.Memᴰ.{head, tail}
use ktn_enclosure_manager.Common.Text.{Text, codes, strip, lower}
use ktn_enclosure_manager.Errors.{ok, ok-injective}
use ktn_enclosure_manager.Bays.Compose.{SlotState}
use ktn_enclosure_manager.Sysfs.Tree.{Kernel, child, sorted, int_leb, text_leb, parse_int}
use ktn_enclosure_manager.Sysfs.Scan.{
  EnclosureRef, Roots, read_attribute, slot_dirs, discover, ref_with, resolve, slot_number_of,
  slot_state, slot_states, read_slots, carries, dir_with, slot_dir, read_locate, class_dir,
  described,
}
use ktn_enclosure_manager.Sysfs.Sorting.{
  sorted-Mem, IsSorted, nil_sorted, sorted-IsSorted, int_leb-total, text_leb-total,
}

abbrev pub by_id : EnclosureRef → EnclosureRef → Bool
by_id a b = text_leb a.logical_id b.logical_id

abbrev by_slot : SlotState → SlotState → Bool
by_slot a b = int_leb a.ses_slot b.ses_slot

module _ {W : Type 0} (k : Kernel W) (w : W) where
  pub discover-IsSorted : (roots : Roots) → IsSorted by_id (discover k w roots)
  unfolding discover
  discover-IsSorted roots = elim (Bool-cases (k.is_dir w (class_dir k w roots))) [
    | inr e ↦ rw (e, discover) nil_sorted
    | inl e ↦
        rw (e, discover)
          (sorted-IsSorted by_id (λ a b. text_leb-total a.logical_id b.logical_id)
            (described k w roots (class_dir k w roots)
              (sorted text_leb (k.names w (class_dir k w roots)))))
  ]

  read_slots-IsSorted : (ref : EnclosureRef) → IsSorted by_slot (read_slots k w ref)
  unfolding read_slots
  read_slots-IsSorted ref =
      sorted-IsSorted by_slot (λ a b. int_leb-total a.ses_slot b.ses_slot)
        (slot_states k w (slot_dirs k w ref.sysfs_path))

  ref_with_sound :
      (target : Text) (refs : List EnclosureRef) (ref : EnclosureRef)
      → ref_with k w target refs ≡ ok ref
      → Memᴰ ref refs × (ref.logical_id ≡ target)
  unfolding ref_with
  ref_with_sound target [] ref h = cc
  ref_with_sound target (r ∷ rs) ref h = elim (Bool-cases (r.logical_id == target)) [
    | inl e ↦
        let same = ok-injective (rw (e, ref_with) at h) in
        (
          head (sym same),
          subst (λ (x : EnclosureRef). x.logical_id ≡ target) same (==→≡ r.logical_id target e),
        )
    | inr e ↦ let (m, i) = ref_with_sound target rs ref (rw (e, ref_with) at h) in (tail m, i)
  ]

  -- An enclosure is resolved by its logical id alone, as one that the scan of this moment found, with
  -- the paths that it has now.
  pub resolve-discovered :
      (roots : Roots) (id : Text) (ref : EnclosureRef)
      → resolve k w roots id ≡ ok ref
      → Memᴰ ref (discover k w roots) × (ref.logical_id ≡ lower (strip id))
  unfolding resolve
  resolve-discovered roots id ref h = ref_with_sound (lower (strip id)) (discover k w roots) ref h

  dir_with_sound :
      (n : ℤ) (dirs : List Text) (dir : Text)
      → dir_with k w n dirs ≡ ok dir
      → Memᴰ dir dirs × (carries k w dir n ≡ true)
  unfolding dir_with
  dir_with_sound n [] dir h = cc
  dir_with_sound n (d ∷ ds) dir h = elim (Bool-cases (carries k w d n)) [
    | inl e ↦
        let same = ok-injective (rw (e, dir_with) at h) in
        (head (sym same), subst (λ x. carries k w x n ≡ true) same e)
    | inr e ↦ let (m, c) = dir_with_sound n ds dir (rw (e, dir_with) at h) in (tail m, c)
  ]

  carries-slot_number_of :
      (dir : Text) (n : ℤ) → carries k w dir n ≡ true → slot_number_of k w dir ≡ some n
  unfolding carries slot_number_of
  carries-slot_number_of dir n h =
      elim (Option-cases (read_attribute k w (child dir (codes "slot")))) [
        | inl e ↦ cc (rw (e, carries) at h)
        | inr (raw, e) ↦ elim (Option-cases (parse_int raw)) [
          | inl f ↦ cc (rw (e, f, carries) at h)
          | inr (m, f) ↦ rw (e, f, slot_number_of) (ap some (==→≡ m n (rw (e, f, carries) at h)))
        ]
      ]

  slot_states-Mem :
      (n : ℤ) {dir : Text} {dirs : List Text}
      → slot_number_of k w dir ≡ some n
      → Memᴰ dir dirs
      → Memᴰ (slot_state k w dir n) (slot_states k w dirs)
  unfolding slot_states
  slot_states-Mem n {dirs = []} e m = elim m [ ]
  slot_states-Mem n {dir = dir} {dirs = d ∷ ds} e (head same) =
      let f = subst (λ x. slot_number_of k w x ≡ some n) same e in
      rw (f, slot_states) (head (ap (λ x. slot_state k w x n) same))
  slot_states-Mem n {dirs = d ∷ ds} e (tail m) = elim (Option-cases (slot_number_of k w d)) [
    | inl f ↦ rw (f, slot_states) (slot_states-Mem n e m)
    | inr (j, f) ↦ rw (f, slot_states) (tail (slot_states-Mem n e m))
  ]

  -- The bay that IDENT writes is the bay that is shown: if a slot number is found as a directory, then
  -- a sweep of the same moment has that directory, under that number, with the very `locate` that
  -- a read-back gives.
  pub slot_dir-read_slots :
      (ref : EnclosureRef) (n : ℤ) (dir : Text)
      → slot_dir k w ref n ≡ ok dir
      → Memᴰ (slot_state k w dir n) (read_slots k w ref)
        × (read_locate k w ref n ≡ ok (slot_state k w dir n).locate)
  unfolding slot_dir read_slots read_locate slot_state
  slot_dir-read_slots ref n dir h =
      let (m, c) = dir_with_sound n (slot_dirs k w ref.sysfs_path) dir h in
      (
        sorted-Mem by_slot (slot_states-Mem n (carries-slot_number_of dir n c) m),
        rw (h, read_locate),
      )

-- ===== src/Ses/Descriptors.antt =====
-- What `parse_configuration` of backend/ktnmgr/enclosure/ses_parser.py returns, and that the
-- addressing reads the descriptor it means.
use ktn_enclosure_manager.Common.{
  ℕ, zero, suc, ◌+◌, Bool, true, ◌&&◌, ◌||◌, if◌then◌else◌, Option, none, some, List, [], ◌∷◌, ◌++◌,
  length, get_elem?, ltb, ◌==◌, nat_eq, list_eq, ◌≡◌, refl, subst, ◌∙◌, ap, sym, ◌⊎◌, inl, inr,
  arith, Option-cases, Bool-cases, or_true, some-injective,
}
use mathlib.Core.List.{append_assoc, append-nil}
use ktn_enclosure_manager.Common.Text.{Text, splitlines}
use ktn_enclosure_manager.Locate.Aes.{
  TypeDescriptor, array_device_slot, device_slot, bay_type_from, array_slot_type_index,
}
use ktn_enclosure_manager.Ses.Lines.{subenclosure_line, type_line, text_line}
use ktn_enclosure_manager.Ses.Configuration.{
  Configuration, descriptor_of, look_ahead, see_count, read_line, read_lines, nothing_read,
  parse_configuration,
}

-- The type lines of a page with what is read after each, numbered from `i`; a subenclosure line is none.
unfoldable pub declared : ℕ → List Text → List TypeDescriptor
declared i [] = []
declared i (l ∷ rest) = elim (subenclosure_line l) [
  | some _ ↦ declared i rest
  | none ↦ elim (type_line l) [
    | some kind ↦ descriptor_of i kind rest ∷ declared (i + 1) rest
    | none ↦ declared i rest
  ]
]

length-snoc : {A : Type 0} (xs : List A) (x : A) → length (xs ++ x ∷ []) ≡ length xs + 1
length-snoc [] x = refl
length-snoc (y ∷ xs) x = omega (arith, length-snoc xs x)

read_line-descriptors :
    (c : Configuration) (l : Text) (rest : List Text)
    → (read_line c l rest).descriptors ++ declared (length (read_line c l rest).descriptors) rest
      ≡ c.descriptors ++ declared (length c.descriptors) (l ∷ rest)
unfolding read_line declared
read_line-descriptors c l rest = elim (Option-cases (subenclosure_line l)) [
  | inr (id, e) ↦ rw (e, read_line, declared)
  | inl e ↦ elim (Option-cases (type_line l)) [
    | inl f ↦ rw (e, f, read_line, declared)
    | inr (kind, f) ↦
        let d = descriptor_of (length c.descriptors) kind rest in
        rw (
          e,
          f,
          read_line,
          declared,
          length-snoc c.descriptors d,
          append_assoc c.descriptors (d ∷ []) (declared (length c.descriptors + 1) rest),
        )
  ]
]

read_lines-descriptors :
    (ls : List Text) (c : Configuration)
    → (read_lines c ls).descriptors ≡ c.descriptors ++ declared (length c.descriptors) ls
unfolding read_lines declared
read_lines-descriptors [] c = sym (append-nil c.descriptors)
read_lines-descriptors (l ∷ rest) c =
    read_lines-descriptors rest (read_line c l rest) ∙ read_line-descriptors c l rest

descriptors_lem : (text : Text) → (parse_configuration text).1 ≡ declared 0 (splitlines text)
unfolding parse_configuration
descriptors_lem text = read_lines-descriptors (splitlines text) nothing_read

get_elem?-cases :
    {A : Type 0} (x : A) (xs : List A) (k : ℕ) (d : A)
    → get_elem? (x ∷ xs) k ≡ some d
    → ((k ≡ 0) × (x ≡ d)) ⊎ ((j : ℕ) × (k ≡ suc j) × (get_elem? xs j ≡ some d))
get_elem?-cases x xs zero d h = inl (refl, cc)
get_elem?-cases x xs (suc j) d h = inr (j, refl, h)

-- A descriptor's index is its position.
declared-index :
    (i k : ℕ) (ls : List Text) (d : TypeDescriptor)
    → get_elem? (declared i ls) k ≡ some d
    → d.index ≡ i + k
unfolding declared descriptor_of
declared-index i k [] d h = cc
declared-index i k (l ∷ ls) d h = elim (Option-cases (subenclosure_line l)) [
  | inr (_, e) ↦ declared-index i k ls d (rw (e, declared) at h)
  | inl e ↦ elim (Option-cases (type_line l)) [
    | inl f ↦ declared-index i k ls d (rw (e, f, declared) at h)
    | inr (kind, f) ↦
        let found = rw (e, f, declared) at h in
        elim (get_elem?-cases (descriptor_of i kind ls) (declared (i + 1) ls) k d found) [
          | inl (z, same) ↦ omega (arith, z, ap (λ (t : TypeDescriptor). t.index) same)
          | inr (j, z, later) ↦ omega (arith, z, declared-index (i + 1) j ls d later)
        ]
  ]
]

-- A descriptor of the type with elements.
unfoldable pub is_usable : Text → TypeDescriptor → Bool
is_usable kind d = ltb 0 d.count && (d.element_type == kind)

unfoldable pub first_usable : Text → List TypeDescriptor → Option TypeDescriptor
unfolding is_usable
first_usable kind [] = none
first_usable kind (d ∷ ds) = if is_usable kind d then some d else first_usable kind ds

-- The first with the type of an array device slot, or else the first with that of a device slot.
unfoldable pub bay_descriptor : List TypeDescriptor → Option TypeDescriptor
unfolding first_usable
bay_descriptor ds = elim (first_usable array_device_slot ds) [
  | some d ↦ some d
  | none ↦ first_usable device_slot ds
]

abbrev index_or : Option ℕ → Option TypeDescriptor → Option ℕ
index_or fallback (some d) = some d.index
index_or fallback none = fallback

abbrev fallback_or : Option ℕ → Option TypeDescriptor → Option ℕ
fallback_or (some i) o = some i
fallback_or none o = index_or none o

bay_type_from_lem :
    (fallback : Option ℕ) (ds : List TypeDescriptor)
    → bay_type_from fallback ds
      ≡ index_or
          (fallback_or fallback (first_usable device_slot ds))
          (first_usable array_device_slot ds)
unfolding bay_type_from first_usable is_usable
bay_type_from_lem none [] = refl
bay_type_from_lem (some i) [] = refl
bay_type_from_lem none (d ∷ ds) = elim (Bool-cases (is_usable array_device_slot d)) [
  | inl a ↦ rw (a, bay_type_from, first_usable)
  | inr a ↦ elim (Bool-cases (is_usable device_slot d)) [
    | inl b ↦ rw (a, b, bay_type_from, first_usable, bay_type_from_lem (some d.index) ds)
    | inr b ↦ rw (a, b, bay_type_from, first_usable, bay_type_from_lem none ds)
  ]
]
bay_type_from_lem (some i) (d ∷ ds) = elim (Bool-cases (is_usable array_device_slot d)) [
  | inl a ↦ rw (a, bay_type_from, first_usable)
  | inr a ↦ elim (Bool-cases (is_usable device_slot d)) [
    | inl b ↦ rw (a, b, bay_type_from, first_usable, bay_type_from_lem (some i) ds)
    | inr b ↦ rw (a, b, bay_type_from, first_usable, bay_type_from_lem (some i) ds)
  ]
]

index_or-bay_descriptor :
    (ds : List TypeDescriptor) → array_slot_type_index ds ≡ index_or none (bay_descriptor ds)
unfolding array_slot_type_index bay_descriptor
index_or-bay_descriptor ds = elim (Option-cases (first_usable array_device_slot ds)) [
  | inr (d, e) ↦ bay_type_from_lem none ds ∙ rw (e, bay_descriptor)
  | inl e ↦ bay_type_from_lem none ds ∙ rw (e, bay_descriptor)
]

first_usable_sound :
    (kind : Text) (ds : List TypeDescriptor) (d : TypeDescriptor)
    → first_usable kind ds ≡ some d
    → ((k : ℕ) × (get_elem? ds k ≡ some d)) × (is_usable kind d ≡ true)
unfolding first_usable
first_usable_sound kind [] d h = cc
first_usable_sound kind (c ∷ ds) d h = elim (Bool-cases (is_usable kind c)) [
  | inl u ↦
      let same = rw (u, first_usable) at h in
      ((0, same), subst (λ x. is_usable kind x ≡ true) (some-injective same) u)
  | inr u ↦
      let ((k, at_k), usable) = first_usable_sound kind ds d (rw (u, first_usable) at h) in
      ((suc k, at_k), usable)
]

-- The type of a descriptor names a drive bay.
unfoldable pub is_bay_type : TypeDescriptor → Bool
unfolding is_usable
is_bay_type d = is_usable array_device_slot d || is_usable device_slot d

bay_descriptor_sound :
    (ds : List TypeDescriptor) (d : TypeDescriptor)
    → bay_descriptor ds ≡ some d
    → ((k : ℕ) × (get_elem? ds k ≡ some d)) × (is_bay_type d ≡ true)
unfolding bay_descriptor is_bay_type
bay_descriptor_sound ds d h = elim (Option-cases (first_usable array_device_slot ds)) [
  | inr (c, e) ↦
      let same = rw (e, bay_descriptor) at h in
      let (at_k, usable) = first_usable_sound array_device_slot ds c e in
      subst (λ x. ((k : ℕ) × (get_elem? ds k ≡ some x)) × (is_bay_type x ≡ true))
        (some-injective same) (at_k, rw (usable, is_bay_type))
  | inl e ↦
      let (at_k, usable) = first_usable_sound device_slot ds d (rw (e, bay_descriptor) at h) in
      (at_k, rw (usable, is_bay_type, or_true (is_usable array_device_slot d)))
]

-- Whatever the configuration page says, if a type index is found, then it is the position in the
-- list of descriptors of one that names a drive bay and has elements (so `descriptors[index]` is
-- never out of range); it is the first array device slot type if there is any, or else the first
-- device slot type.
pub array_slot_type_index-descriptor :
    (text : Text) (t : ℕ)
    → array_slot_type_index (parse_configuration text).1 ≡ some t
    → (d : TypeDescriptor) × (get_elem? (parse_configuration text).1 t ≡ some d)
      × (bay_descriptor (parse_configuration text).1 ≡ some d)
      × (is_bay_type d ≡ true)
array_slot_type_index-descriptor text t h =
    let ds = (parse_configuration text).1 in
    let found = sym (index_or-bay_descriptor ds) ∙ h in
    elim (Option-cases (bay_descriptor ds)) [
      | inl e ↦ cc (rw (e) at found)
      | inr (d, e) ↦
          let ((k, at_k), bay) = bay_descriptor_sound ds d e in
          let index = declared-index 0 k (splitlines text) d (rw (descriptors_lem text) at at_k) in
          let t_is = some-injective (rw (e) at found) in
          (d, subst (λ x. get_elem? ds x ≡ some d) (omega (arith, index, t_is)) at_k, e, bay)
    ]

-- What stands after the next type line of the page is not read: a type with no text line gets
-- neither the label nor the count of the type after it.
pub look_ahead-boundary :
    (front : List Text) (l : Text) (rest : List Text) (seen : Option ℕ) (kind : Text × ℕ)
    → type_line l ≡ some kind
    → look_ahead seen (front ++ l ∷ rest) ≡ look_ahead seen front
unfolding look_ahead
look_ahead-boundary [] l rest seen kind e = rw (e, look_ahead)
look_ahead-boundary (f ∷ front) l rest seen kind e = elim (Option-cases (type_line f)) [
  | inr (_, stop) ↦ rw (stop, look_ahead)
  | inl go ↦ elim (Option-cases (text_line f)) [
    | inr (_, label) ↦ rw (go, label, look_ahead)
    | inl more ↦
        rw (go, more, look_ahead, look_ahead-boundary front l rest (see_count seen f) kind e)
  ]
]

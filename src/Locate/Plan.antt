-- ===== src/Locate/Plan.antt =====
-- How `SesLocateWriter` of backend/ktnmgr/enclosure/locate.py finds the element to address:
-- `_array_type_index`, `_slot_element_map` and `_element_index_for`, with their caches.
use ktn_enclosure_manager.Common.{
  ℕ, Bool, true, false, ◌||◌, Option, none, some, List, [], ◌∷◌, get_elem?, is_some, if◌then◌else◌,
  list_eq, nat_eq,
}
use ktn_enclosure_manager.Common.Dict.{Dict, get, put}
use ktn_enclosure_manager.Common.Text.{Text}
use ktn_enclosure_manager.Errors.{
  Outcome, ok, raise, locate_error, other_exception, no_sg_device, configuration_unreadable,
  no_bay_elements, aes_unreadable, no_addressable_slot, ambiguous_slot, unmapped_slot,
}
use ktn_enclosure_manager.Locate.Aes.{AesBlock, TypeDescriptor, array_slot_type_index}
use ktn_enclosure_manager.Locate.SlotMap.{build_slot_map}

-- The fields of an `EnclosureRef` that the writer reads.
pub record Ref : Type 0 where
  pub logical_id : Text
  pub sg_device : Option Text

-- `SesRunner.read_page` and the parser of the page, none for a `SesError`.
pub record Pages (W : Type 0) : Type 0 where
  pub configuration : W → Option Text → Option (List TypeDescriptor) × W
  pub element_status : W → Option Text → Option (List AesBlock) × W

-- `_type_index` and `_slot_to_element`.
pub record Plans : Type 0 where
  pub type_index : Dict Text (ℕ × ℕ)
  pub slot_to_element : Dict Text (Dict ℕ (Option ℕ))

-- `if not device`
abbrev pub is_absent : Option Text → Bool
is_absent none = true
is_absent (some []) = true
is_absent (some (c ∷ cs)) = false

-- `any(element is not None for element in mapping.values())`
unfoldable pub is_addressable : Dict ℕ (Option ℕ) → Bool
is_addressable [] = false
is_addressable ((slot, m) ∷ d) = is_some m || is_addressable d

-- The end of `_element_index_for`.
unfoldable pub element_in : Dict ℕ (Option ℕ) → ℕ → Outcome ℕ
unfolding get
element_in m slot = elim (get slot m) [
  | none ↦ raise (locate_error unmapped_slot)
  | some none ↦ raise (locate_error ambiguous_slot)
  | some (some i) ↦ ok i
]

module _ {W : Type 0} (pages : Pages W) where
  -- `descriptors[index]` raises `IndexError` out of range.
  unfoldable pub array_type_index : Ref → Plans → W → Outcome (ℕ × ℕ) × (Plans × W)
  unfolding get put array_slot_type_index
  array_type_index ref p w = elim (get ref.logical_id p.type_index) [
    | some t ↦ (ok t, (p, w))
    | none ↦
        if is_absent ref.sg_device
        then (raise (locate_error no_sg_device), (p, w))
        else (let (page, w') = pages.configuration w ref.sg_device in
            elim page [
              | none ↦ (raise (locate_error configuration_unreadable), (p, w'))
              | some ds ↦ elim (array_slot_type_index ds) [
                | none ↦ (raise (locate_error no_bay_elements), (p, w'))
                | some i ↦ elim (get_elem? ds i) [
                  | none ↦ (raise other_exception, (p, w'))
                  | some d ↦ (
                    ok (i, d.count),
                    (record p { type_index = put ref.logical_id (i, d.count) p.type_index }, w'),
                  )
                ]
              ]
            ])
  ]

  unfoldable pub slot_element_map :
      Ref → ℕ → ℕ → Plans → W → Outcome (Dict ℕ (Option ℕ)) × (Plans × W)
  unfolding get put build_slot_map is_addressable
  slot_element_map ref type_index expected_count p w = elim (get ref.logical_id p.slot_to_element) [
    | some m ↦ (ok m, (p, w))
    | none ↦
        let (page, w') = pages.element_status w ref.sg_device in
        elim page [
          | none ↦ (raise (locate_error aes_unreadable), (p, w'))
          | some blocks ↦
              let m = build_slot_map blocks type_index expected_count in
              if is_addressable m
              then (
                ok m,
                (record p { slot_to_element = put ref.logical_id m p.slot_to_element }, w'),
              )
              else (raise (locate_error no_addressable_slot), (p, w'))
        ]
  ]

  unfoldable pub element_index_for : Ref → ℕ → ℕ → ℕ → Plans → W → Outcome ℕ × (Plans × W)
  unfolding slot_element_map element_in
  element_index_for ref type_index expected_count slot p w =
      let (o, after) = slot_element_map ref type_index expected_count p w in
      elim o [ raise e ↦ (raise e, after) | ok m ↦ (element_in m slot, after) ]

  -- The part of `write` before the command: the type index and the element index of the slot.
  unfoldable pub plan : Ref → ℕ → Plans → W → Outcome (ℕ × ℕ) × (Plans × W)
  unfolding array_type_index element_index_for
  plan ref slot p w =
      let (o, after) = array_type_index ref p w in
      elim o [
        | raise e ↦ (raise e, after)
        | ok t ↦
            let (o', after') = element_index_for ref t.0 t.1 slot after.0 after.1 in
            elim o' [ raise e ↦ (raise e, after') | ok i ↦ (ok (t.0, i), after') ]
      ]

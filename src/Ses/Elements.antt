-- ===== src/Ses/Elements.antt =====
-- What `parse_join` of backend/ktnmgr/enclosure/ses_parser.py returns.
use ktn_enclosure_manager.Common.{
  ℕ, zero, suc, ℤ, pos, negsuc, true, false, Option, get_elem?, refl, ap, none, some, List, [], ◌∷◌,
  ◌++◌, ◌≡◌, sym, ◌∙◌, Option-cases, inl, inr,
}
use mathlib.Core.List.{append_assoc, append-nil}
use ktn_enclosure_manager.Common.Text.{Text, codes, splitlines}
use ktn_enclosure_manager.Locate.Aes.{TypeDescriptor}
use ktn_enclosure_manager.Ses.Readings.{ChassisElement, element_line, finalise}
use ktn_enclosure_manager.Ses.Join.{
  descriptor_at, is_negative, new_element, Joining, no_current, reading, elements_of, join_line,
  join_lines, parse_join,
}

-- The page read from its end: the lines up to the first element header, and each header with the
-- lines up to the next.
pub record Cut : Type 0 where
  pub preamble : List Text
  pub elements : List ((ℤ × ℤ × Text) × List Text)

unfoldable pub cut_elements : List Text → Cut
cut_elements [] = record { preamble = []; elements = [] }
cut_elements (l ∷ ls) = elim (element_line l) [
  | some h ↦ record {
    preamble = [];
    elements = (h, (cut_elements ls).preamble) ∷ (cut_elements ls).elements;
  }
  | none ↦ record {
    preamble = l ∷ (cut_elements ls).preamble;
    elements = (cut_elements ls).elements;
  }
]

-- What stands for the type of an element: the subenclosure and the label of the descriptor at its type
-- index, and -1 and the type as it is printed if there is none.
abbrev pub place_of : List TypeDescriptor → ℤ × ℤ × Text → ℤ × Text
place_of ds (negsuc n, i, kind) = (negsuc 0, kind)
place_of [] (pos n, i, kind) = (negsuc 0, kind)
place_of (d ∷ ds) (pos zero, i, kind) = (pos d.subenclosure_id, d.label)
place_of (d ∷ ds) (pos (suc n), i, kind) = place_of ds (pos n, i, kind)

-- An element of which nothing but the header is read: its two indexes and its type as they are printed,
-- and an element for the whole type where the element index is negative.
abbrev pub headed : ℤ × Text → ℤ × ℤ × Text → ChassisElement
headed place (t, i, kind) = record {
  type_index = t;
  element_index = i;
  subenclosure_id = place.0;
  element_type = kind;
  label = place.1;
  status = codes "unknown";
  is_overall = elim i [ pos n ↦ false | negsuc n ↦ true ];
  fields = [];
  temperature_c = none;
  speed_rpm = none;
  speed_code = none;
  speed_phrase = none;
  requested_on = none;
}

place_of-at :
    (ds : List TypeDescriptor) (n : ℕ) (i : ℤ) (kind : Text)
    → place_of ds (pos n, i, kind) ≡ (elim (get_elem? ds n) [
      | some d ↦ (pos d.subenclosure_id, d.label)
      | none ↦ (negsuc 0, kind)
    ])
place_of-at [] n i kind = refl
place_of-at (d ∷ ds) zero i kind = refl
place_of-at (d ∷ ds) (suc n) i kind = place_of-at ds n i kind

headed-new_element :
    (ds : List TypeDescriptor) (h : ℤ × ℤ × Text) → headed (place_of ds h) h ≡ new_element ds h
unfolding new_element descriptor_at
headed-new_element ds (negsuc n, pos i, kind) = refl
headed-new_element ds (negsuc n, negsuc i, kind) = refl
headed-new_element ds (pos n, i, kind) =
    ap (λ place. headed place (pos n, i, kind)) (place_of-at ds n i kind)
    ∙ at_header (get_elem? ds n) i
  where
    at_header :
        (o : Option TypeDescriptor) (j : ℤ)
        → headed
            (elim o [ some d ↦ (pos d.subenclosure_id, d.label) | none ↦ (negsuc 0, kind) ])
            (pos n, j, kind)
          ≡ record {
            type_index = pos n;
            element_index = j;
            subenclosure_id = elim o [ some d ↦ pos d.subenclosure_id | none ↦ negsuc 0 ];
            element_type = kind;
            label = elim o [ some d ↦ d.label | none ↦ kind ];
            status = codes "unknown";
            is_overall = is_negative j;
            fields = [];
            temperature_c = none;
            speed_rpm = none;
            speed_code = none;
            speed_phrase = none;
            requested_on = none;
          }
    at_header (some d) (pos i) = refl
    at_header (some d) (negsuc i) = refl
    at_header none (pos i) = refl
    at_header none (negsuc i) = refl

-- Each header's element, completed by `_finalise` from its own lines.
unfoldable pub described_elements :
    List TypeDescriptor → List ((ℤ × ℤ × Text) × List Text) → List ChassisElement
described_elements ds [] = []
described_elements ds ((h, body) ∷ rest) =
    finalise (headed (place_of ds h) h) body ∷ described_elements ds rest

-- The same with the element as the loop makes it.
unfoldable read_elements :
    List TypeDescriptor → List ((ℤ × ℤ × Text) × List Text) → List ChassisElement
read_elements ds [] = []
read_elements ds ((h, body) ∷ rest) = finalise (new_element ds h) body ∷ read_elements ds rest

module _ (ds : List TypeDescriptor) where
  abbrev finish : Joining → List Text → List ChassisElement
  finish (no_current done) ls = done ++ read_elements ds (cut_elements ls).elements
  finish (reading done current body) ls =
      done
      ++ finalise current (body ++ (cut_elements ls).preamble)
        ∷ read_elements ds (cut_elements ls).elements

  finish-join_line :
      (s : Joining) (l : Text) (ls : List Text) → finish (join_line ds s l) ls ≡ finish s (l ∷ ls)
  unfolding join_line cut_elements read_elements elements_of
  finish-join_line (no_current done) l ls = elim (Option-cases (element_line l)) [
    | inl e ↦ rw (e, join_line, cut_elements)
    | inr (h, e) ↦ rw (e, join_line, cut_elements)
  ]
  finish-join_line (reading done current body) l ls = elim (Option-cases (element_line l)) [
    | inl e ↦ rw (e, join_line, cut_elements, append_assoc body (l ∷ []) (cut_elements ls).preamble)
    | inr (h, e) ↦ rw (
      e,
      join_line,
      cut_elements,
      append-nil body,
      append_assoc done (finalise current body ∷ [])
          (read_elements ds ((h, (cut_elements ls).preamble) ∷ (cut_elements ls).elements)),
    )
  ]

  join_lines-finish :
      (ls : List Text) (s : Joining) → elements_of (join_lines ds s ls) ≡ finish s ls
  unfolding join_lines elements_of cut_elements read_elements
  join_lines-finish [] (no_current done) = sym (append-nil done)
  join_lines-finish [] (reading done current body) = rw (append-nil body)
  join_lines-finish (l ∷ ls) s = join_lines-finish ls (join_line ds s l) ∙ finish-join_line s l ls

described_elements-read_elements :
    (ds : List TypeDescriptor) (es : List ((ℤ × ℤ × Text) × List Text))
    → read_elements ds es ≡ described_elements ds es
unfolding read_elements described_elements
described_elements-read_elements ds [] = refl
described_elements-read_elements ds ((h, body) ∷ rest) =
    ap (λ e. finalise e body ∷ read_elements ds rest) (sym (headed-new_element ds h))
    ∙ ap (λ es. finalise (headed (place_of ds h) h) body ∷ es)
        (described_elements-read_elements ds rest)

-- The loop returns one element for each element header of the page, in order: it has the two indexes
-- and the type of the header, the subenclosure and label of the descriptor at its type index, or -1 and
-- the printed type if there is none, and it is completed by `_finalise` from the lines up to the next
-- header and from no other.
pub parse_join_lem :
    (text : Text) (ds : List TypeDescriptor)
    → parse_join text ds ≡ described_elements ds (cut_elements (splitlines text)).elements
unfolding parse_join
parse_join_lem text ds =
    join_lines-finish ds (splitlines text) (no_current [])
    ∙ described_elements-read_elements ds (cut_elements (splitlines text)).elements

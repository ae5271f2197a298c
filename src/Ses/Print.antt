-- ===== src/Ses/Print.antt =====
-- The lines that sg_ses prints for an additional element status page, and that
-- `parse_additional_element_status` of backend/ktnmgr/enclosure/ses_parser.py reads back.
use ktn_enclosure_manager.Common.{
  ℕ, Bool, true, false, Option, none, some, List, [], ◌∷◌, ◌++◌, any, ◌≡◌, refl, ◌∙◌,
}
use mathlib.Core.List.{append-nil}
use ktn_enclosure_manager.Locate.Aes.{AesEntry, AesBlock}
use ktn_enclosure_manager.Ses.AesPage.{
  new_block, AesLine, header, indexed, unindexed, unknown_element, detail, outside, blocks,
  run_lines,
}
use ktn_enclosure_manager.Ses.Sections.{
  cut, gather, Gathered, is_unknown, complete, first_some, entry_of, read_sections, reference_page,
  closed,
}
use ktn_enclosure_manager.Ses.Pages.{
  IsPlain, AllPlain, no_lines, plain_line, indexed_plain, unindexed_plain, unknown_plain,
  detail_plain, cut-append, run_lines-reference_page,
}

-- The line that opens an element; one with no index has no `eiioe` either.
unfoldable pub opener : AesEntry → AesLine
opener e = elim (e.element_index) [ some i ↦ indexed i e.eiioe | none ↦ unindexed ]

-- An element: its opening line, the line of its slot number and the line of its address.
unfoldable pub print_entries : List AesEntry → List AesLine
unfolding opener
print_entries [] = []
print_entries (e ∷ es) =
    opener e ∷ detail e.device_slot_number none ∷ detail none e.sas_address ∷ print_entries es

abbrev pub print_mark : Bool → List AesLine
print_mark true = unknown_element ∷ []
print_mark false = []

abbrev pub print_body : AesBlock → List AesLine
print_body b = print_entries b.entries ++ print_mark b.malformed

unfoldable pub print_page : List AesBlock → List AesLine
unfolding print_entries
print_page [] = []
print_page (b ∷ bs) =
    header b.element_type b.subenclosure_id b.type_index ∷ print_body b ++ print_page bs

-- `eiioe` stands only beside an index.
pub data ArePrintable : List AesEntry → Type 0 where
  no_entries : ArePrintable []
  indexed_entry :
      {e : AesEntry} {es : List AesEntry} (i : ℕ)
      → e.element_index ≡ some i
      → ArePrintable es
      → ArePrintable (e ∷ es)
  unindexed_entry :
      {e : AesEntry} {es : List AesEntry}
      → e.element_index ≡ none
      → e.eiioe ≡ none
      → ArePrintable es
      → ArePrintable (e ∷ es)

pub data AllPrintable : List AesBlock → Type 0 where
  no_blocks : AllPrintable []
  printable_block :
      {b : AesBlock} {bs : List AesBlock}
      → ArePrintable b.entries
      → AllPrintable bs
      → AllPrintable (b ∷ bs)

opener-IsPlain : (e : AesEntry) → IsPlain (opener e)
unfolding opener
opener-IsPlain e =
    elim (e.element_index)
      as (λ x. IsPlain (elim x [ some i ↦ indexed i e.eiioe | none ↦ unindexed ])) [
        | some i ↦ indexed_plain
        | none ↦ unindexed_plain
      ]

print_entries-AllPlain :
    (es : List AesEntry) {ls : List AesLine} → AllPlain ls → AllPlain (print_entries es ++ ls)
unfolding print_entries
print_entries-AllPlain [] p = p
print_entries-AllPlain (e ∷ es) p =
    plain_line (opener-IsPlain e)
      (plain_line detail_plain (plain_line detail_plain (print_entries-AllPlain es p)))

print_mark-AllPlain : (m : Bool) → AllPlain (print_mark m)
print_mark-AllPlain true = plain_line unknown_plain no_lines
print_mark-AllPlain false = no_lines

gather-print_mark : (m : Bool) → gather (print_mark m) ≡ closed []
unfolding gather
gather-print_mark true = refl
gather-print_mark false = refl

first_some-or_none : {A : Type 0} (o : Option A) → first_some (o ∷ none ∷ []) ≡ o
unfolding first_some
first_some-or_none (some a) = refl
first_some-or_none none = refl

first_some-none : {A : Type 0} (o : Option A) → first_some (none ∷ o ∷ []) ≡ o
unfolding first_some
first_some-none (some a) = refl
first_some-none none = refl

abbrev details : AesEntry → Gathered → Gathered
details e g = record {
  slots = e.device_slot_number ∷ none ∷ g.slots;
  addresses = none ∷ e.sas_address ∷ g.addresses;
  found = g.found;
}

-- An entry is its printed details under its own opening line.
entry_of-details :
    (e : AesEntry) (es : List AesEntry)
    → entry_of e.element_index e.eiioe (details e (closed es)) ≡ e
unfolding entry_of
entry_of-details e es = rw (first_some-or_none e.device_slot_number, first_some-none e.sas_address)

gather-indexed :
    (e : AesEntry) (i : ℕ) (ls : List AesLine)
    → e.element_index ≡ some i
    → gather (opener e ∷ ls)
      ≡ closed (entry_of e.element_index e.eiioe (gather ls) ∷ (gather ls).found)
unfolding gather opener
gather-indexed e i ls p = rw (p)

gather-unindexed :
    (e : AesEntry) (ls : List AesLine)
    → e.element_index ≡ none
    → e.eiioe ≡ none
    → gather (opener e ∷ ls)
      ≡ closed (entry_of e.element_index e.eiioe (gather ls) ∷ (gather ls).found)
unfolding gather opener
gather-unindexed e ls p q = rw (p, q)

gather-print_entries :
    {es : List AesEntry} (ls : List AesLine)
    → ArePrintable es
    → gather ls ≡ closed []
    → gather (print_entries es ++ ls) ≡ closed es
unfolding print_entries gather
gather-print_entries ls no_entries z = z
gather-print_entries {es = e ∷ es} ls (indexed_entry i p ps) z =
    gather-indexed e i _ p ∙ rw (gather-print_entries ls ps z, entry_of-details e es)
gather-print_entries {es = e ∷ es} ls (unindexed_entry p q ps) z =
    gather-unindexed e _ p q ∙ rw (gather-print_entries ls ps z, entry_of-details e es)

is_unknown-opener : (e : AesEntry) → is_unknown (opener e) ≡ false
unfolding opener is_unknown
is_unknown-opener e =
    elim (e.element_index)
      as (λ x. is_unknown (elim x [ some i ↦ indexed i e.eiioe | none ↦ unindexed ]) ≡ false) [
        | some i ↦ refl
        | none ↦ refl
      ]

any-is_unknown-print_entries :
    (es : List AesEntry) (m : Bool) → any is_unknown (print_entries es ++ print_mark m) ≡ m
unfolding print_entries is_unknown
any-is_unknown-print_entries [] true = refl
any-is_unknown-print_entries [] false = refl
any-is_unknown-print_entries (e ∷ es) m =
    rw (is_unknown-opener e, any-is_unknown-print_entries es m)

complete-print_body :
    (b : AesBlock)
    → ArePrintable b.entries
    → complete (new_block b.element_type b.subenclosure_id b.type_index) (print_body b) ≡ b
unfolding complete
complete-print_body b p = rw (
  gather-print_entries (print_mark b.malformed) p (gather-print_mark b.malformed),
  any-is_unknown-print_entries b.entries b.malformed,
)

preamble-print_page : (bs : List AesBlock) → (cut (print_page bs)).preamble ≡ []
unfolding cut print_page
preamble-print_page [] = refl
preamble-print_page (b ∷ bs) = refl

print_body-AllPlain : (b : AesBlock) → AllPlain (print_body b)
print_body-AllPlain b = print_entries-AllPlain b.entries (print_mark-AllPlain b.malformed)

reference_page-print_page :
    {bs : List AesBlock} → AllPrintable bs → reference_page (print_page bs) ≡ bs
unfolding reference_page read_sections cut print_page
reference_page-print_page no_blocks = refl
reference_page-print_page {bs = b ∷ bs} (printable_block p ps) = rw (
  cut-append (print_body-AllPlain b) (print_page bs),
  preamble-print_page bs,
  append-nil (print_body b),
  complete-print_body b p,
  reference_page-print_page ps,
)

-- The loop reads back any list of blocks from its printed lines, malformed ones included, where no
-- entry has an `eiioe` without an index.
pub run_lines-print_page :
    {bs : List AesBlock} → AllPrintable bs → blocks (run_lines (outside []) (print_page bs)) ≡ bs
run_lines-print_page {bs = bs} p =
    run_lines-reference_page (print_page bs) ∙ reference_page-print_page p

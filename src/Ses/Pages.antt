-- ===== src/Ses/Pages.antt =====
-- What `parse_additional_element_status` of backend/ktnmgr/enclosure/ses_parser.py makes of a page.
use ktn_enclosure_manager.Common.{
  ℕ, Option, none, some, List, [], ◌∷◌, ◌++◌, map, ◌≡◌, refl, ◌∙◌, ap, sym,
}
use mathlib.Core.List.{append-nil}
use ktn_enclosure_manager.Common.Text.{Text, splitlines}
use ktn_enclosure_manager.Ses.AesPage.{
  AesLine, header, broken_header, indexed, unindexed, unknown_element, detail, AesState, outside,
  inside, filling, blocks, append_entry, step, run_lines, classify_line,
  parse_additional_element_status,
}
use ktn_enclosure_manager.Ses.Sections.{
  cut, Sections, gather, read_sections, reference_page, finish, finish-step, complete-nil,
  extend-closed,
}

finish-nil : (s : AesState) → blocks s ≡ finish s []
unfolding finish blocks reference_page read_sections cut gather
finish-nil (outside d) = sym (append-nil d)
finish-nil (inside d b) = rw (complete-nil b)
finish-nil (filling d b e) = rw (extend-closed e [], complete-nil (append_entry b e))

run_lines-finish : (ls : List AesLine) (s : AesState) → blocks (run_lines s ls) ≡ finish s ls
unfolding run_lines
run_lines-finish [] s = finish-nil s
run_lines-finish (l ∷ ls) s = run_lines-finish ls (step s l) ∙ finish-step s l ls

-- The loop over the lines of any page returns what the independent reading finds: one block for
-- each type header with its [ti=N], in order, with one entry for each element header of its section,
-- which has the first slot number and the first address up to the next element header, and
-- marked as malformed exactly if the section has an element header of no known form.
pub parse_additional_element_status_lem :
    (text : Text)
    → parse_additional_element_status text ≡ reference_page (map classify_line (splitlines text))
unfolding parse_additional_element_status finish
parse_additional_element_status_lem text =
    run_lines-finish (map classify_line (splitlines text)) (outside [])

pub run_lines-reference_page :
    (ls : List AesLine) → blocks (run_lines (outside []) ls) ≡ reference_page ls
unfolding finish
run_lines-reference_page ls = run_lines-finish ls (outside [])

-- A line of a section: no type header.
pub data IsPlain : AesLine → Type 0 where
  indexed_plain : {i : ℕ} {e : Option ℕ} → IsPlain (indexed i e)
  unindexed_plain : IsPlain unindexed
  unknown_plain : IsPlain unknown_element
  detail_plain : {s : Option ℕ} {a : Option Text} → IsPlain (detail s a)

pub data AllPlain : List AesLine → Type 0 where
  no_lines : AllPlain []
  plain_line : {l : AesLine} {ls : List AesLine} → IsPlain l → AllPlain ls → AllPlain (l ∷ ls)

abbrev before : List AesLine → Sections → Sections
before ls s = record { preamble = ls ++ s.preamble; sections = s.sections }

cut-plain :
    {l : AesLine} → IsPlain l → (ls : List AesLine) → cut (l ∷ ls) ≡ before (l ∷ []) (cut ls)
unfolding cut
cut-plain indexed_plain ls = refl
cut-plain unindexed_plain ls = refl
cut-plain unknown_plain ls = refl
cut-plain detail_plain ls = refl

pub cut-append :
    {body : List AesLine}
    → AllPlain body
    → (ls : List AesLine) → cut (body ++ ls) ≡ before body (cut ls)
cut-append no_lines ls = refl
cut-append {body = l ∷ body} (plain_line p ps) ls =
    cut-plain p (body ++ ls) ∙ ap (before (l ∷ [])) (cut-append ps ls)

-- Lines that begin with a type header, cut off from what stands before them.
cut-front :
    (front ls : List AesLine)
    → (cut ls).preamble ≡ []
    → cut (front ++ ls) ≡ record {
      preamble = (cut front).preamble;
      sections = (cut front).sections ++ (cut ls).sections;
    }
unfolding cut
cut-front [] ls e = rw (sym e)
cut-front (header kind sub ti ∷ front) ls e = rw (cut-front front ls e)
cut-front (broken_header ∷ front) ls e = rw (cut-front front ls e)
cut-front (indexed i f ∷ front) ls e = rw (cut-front front ls e)
cut-front (unindexed ∷ front) ls e = rw (cut-front front ls e)
cut-front (unknown_element ∷ front) ls e = rw (cut-front front ls e)
cut-front (detail s a ∷ front) ls e = rw (cut-front front ls e)

read_sections-append :
    (xs ys : List (Option (Text × ℕ × ℕ) × List AesLine))
    → read_sections (xs ++ ys) ≡ read_sections xs ++ read_sections ys
unfolding read_sections
read_sections-append [] ys = refl
read_sections-append ((none, body) ∷ xs) ys = read_sections-append xs ys
read_sections-append ((some h, body) ∷ xs) ys = rw (read_sections-append xs ys)

reference_page-front :
    (front ls : List AesLine)
    → (cut ls).preamble ≡ []
    → reference_page (front ++ ls) ≡ reference_page front ++ reference_page ls
unfolding reference_page
reference_page-front front ls e =
    rw (cut-front front ls e, read_sections-append (cut front).sections (cut ls).sections)

reference_page-broken_header :
    {body : List AesLine} (ls : List AesLine)
    → AllPlain body
    → reference_page (broken_header ∷ body ++ ls) ≡ reference_page ls
unfolding cut reference_page read_sections
reference_page-broken_header ls plain = rw (cut-append plain ls)

-- In a page whose remaining lines `ls` begin with a type header or are none, a section before them
-- whose own type header cannot be read leaves no trace in what the loop returns: no block, and no
-- entry of the blocks before and after it.
pub broken_section_is_dropped :
    (front body ls : List AesLine)
    → AllPlain body
    → (cut ls).preamble ≡ []
    → blocks (run_lines (outside []) (front ++ (broken_header ∷ body ++ ls)))
      ≡ blocks (run_lines (outside []) (front ++ ls))
unfolding cut
broken_section_is_dropped front body ls plain e =
    run_lines-reference_page (front ++ (broken_header ∷ body ++ ls))
    ∙ reference_page-front front (broken_header ∷ body ++ ls) refl
    ∙ ap (λ p. reference_page front ++ p) (reference_page-broken_header ls plain)
    ∙ sym (reference_page-front front ls e)
    ∙ sym (run_lines-reference_page (front ++ ls))

-- ===== src/Ses/Sections.antt =====
-- An independent reading of the additional element status page, from the end of the page backwards:
-- the page is cut into sections at its type headers, a section into elements at its element
-- headers. backend/ktnmgr/enclosure/ses_parser.py (parse_additional_element_status) reads it
-- forwards, with two mutable references.
use ktn_enclosure_manager.Common.{
  ℕ, Bool, true, false, ◌||◌, Option, none, some, List, [], ◌∷◌, ◌++◌, any, ◌≡◌, refl, or_true,
  or_false,
}
use mathlib.Core.List.{append_assoc, append-nil}
use ktn_enclosure_manager.Common.Text.{Text}
use ktn_enclosure_manager.Locate.Aes.{AesEntry, AesBlock}
use ktn_enclosure_manager.Ses.AesPage.{
  AesLine, header, broken_header, indexed, unindexed, unknown_element, detail, AesState, outside,
  inside, filling, blocks, set_default, new_block, append_entry, mark_malformed, step,
}

-- The lines before the first type header, and each type header with the lines after it; `none` is a
-- header that cannot be read.
pub record Sections : Type 0 where
  pub preamble : List AesLine
  pub sections : List (Option (Text × ℕ × ℕ) × List AesLine)

unfoldable pub cut : List AesLine → Sections
cut [] = record { preamble = []; sections = [] }
cut (header kind sub ti ∷ ls) = record {
  preamble = [];
  sections = (some (kind, sub, ti), (cut ls).preamble) ∷ (cut ls).sections;
}
cut (broken_header ∷ ls) = record {
  preamble = [];
  sections = (none, (cut ls).preamble) ∷ (cut ls).sections;
}
cut (l ∷ ls) = record { preamble = l ∷ (cut ls).preamble; sections = (cut ls).sections }

-- The details before the first element header of a section, and its entries.
pub record Gathered : Type 0 where
  pub slots : List (Option ℕ)
  pub addresses : List (Option Text)
  pub found : List AesEntry

unfoldable pub first_some {ℓ} : {A : Type ℓ} → List (Option A) → Option A
first_some [] = none
first_some (some a ∷ os) = some a
first_some (none ∷ os) = first_some os

-- An entry with the first slot and the first address of the details after its header.
unfoldable pub entry_of : Option ℕ → Option ℕ → Gathered → AesEntry
unfolding first_some
entry_of index eiioe g = record {
  element_index = index;
  eiioe = eiioe;
  device_slot_number = first_some g.slots;
  sas_address = first_some g.addresses;
}

abbrev pub closed : List AesEntry → Gathered
closed es = record { slots = []; addresses = []; found = es }

unfoldable pub gather : List AesLine → Gathered
unfolding entry_of
gather [] = closed []
gather (indexed i eiioe ∷ ls) = closed (entry_of (some i) eiioe (gather ls) ∷ (gather ls).found)
gather (unindexed ∷ ls) = closed (entry_of none none (gather ls) ∷ (gather ls).found)
gather (detail slot address ∷ ls) = record {
  slots = slot ∷ (gather ls).slots;
  addresses = address ∷ (gather ls).addresses;
  found = (gather ls).found;
}
gather (l ∷ ls) = closed (gather ls).found

unfoldable pub is_unknown : AesLine → Bool
is_unknown unknown_element = true
is_unknown l = false

-- A block with what the rest of its section adds to it.
unfoldable pub complete : AesBlock → List AesLine → AesBlock
unfolding gather is_unknown
complete b body = record b {
  entries = b.entries ++ (gather body).found;
  malformed = b.malformed || any is_unknown body;
}

-- The block of each section whose header can be read.
unfoldable pub read_sections : List (Option (Text × ℕ × ℕ) × List AesLine) → List AesBlock
unfolding complete
read_sections [] = []
read_sections ((none, body) ∷ rest) = read_sections rest
read_sections ((some h, body) ∷ rest) = complete (new_block h.0 h.1 h.2) body ∷ read_sections rest

unfoldable pub reference_page : List AesLine → List AesBlock
unfolding read_sections cut
reference_page ls = read_sections (cut ls).sections

-- An entry that the loop has begun, with the details that follow.
abbrev pub extend : AesEntry → Gathered → AesEntry
extend e g = record e {
  device_slot_number = set_default e.device_slot_number (first_some g.slots);
  sas_address = set_default e.sas_address (first_some g.addresses);
}

-- What the loop returns from a state, by the independent reading of the lines that are left.
unfoldable pub finish : AesState → List AesLine → List AesBlock
unfolding reference_page set_default
finish (outside done) ls = done ++ reference_page ls
finish (inside done b) ls = done ++ complete b (cut ls).preamble ∷ reference_page ls
finish (filling done b e) ls =
    done
    ++ complete (append_entry b (extend e (gather (cut ls).preamble))) (cut ls).preamble
      ∷ reference_page ls

-- Nothing is added by no lines.
pub complete-nil : (b : AesBlock) → complete b [] ≡ b
unfolding complete gather
complete-nil b = rw (append-nil b.entries, or_false b.malformed)

set_default-none : {A : Type 0} (o : Option A) → set_default o none ≡ o
unfolding set_default
set_default-none none = refl
set_default-none (some a) = refl

pub extend-closed : (e : AesEntry) (es : List AesEntry) → extend e (closed es) ≡ e
unfolding first_some
extend-closed e es = rw (set_default-none e.device_slot_number, set_default-none e.sas_address)

-- The first value of a `setdefault` wins.
set_default-first_some :
    {A : Type 0} (o p : Option A) (os : List (Option A))
    → set_default (set_default o p) (first_some os) ≡ set_default o (first_some (p ∷ os))
unfolding set_default first_some
set_default-first_some (some a) p os = refl
set_default-first_some none (some a) os = refl
set_default-first_some none none os = refl

-- A block that the loop moves on from is complete.
closes :
    (done : List AesBlock) (b : AesBlock) (rest : List AesBlock)
    → (done ++ b ∷ []) ++ rest ≡ done ++ complete b [] ∷ rest
closes done b rest = rw (complete-nil b, append_assoc done (b ∷ []) rest)

-- An entry begun joins its block.
begins-indexed :
    (b : AesBlock) (i : ℕ) (eiioe : Option ℕ) (body : List AesLine)
    → complete (append_entry b (entry_of (some i) eiioe (gather body))) body
      ≡ complete b (indexed i eiioe ∷ body)
unfolding complete gather is_unknown
begins-indexed b i eiioe body =
    rw (append_assoc b.entries (entry_of (some i) eiioe (gather body) ∷ []) (gather body).found)

begins-unindexed :
    (b : AesBlock) (body : List AesLine)
    → complete (append_entry b (entry_of none none (gather body))) body
      ≡ complete b (unindexed ∷ body)
unfolding complete gather is_unknown
begins-unindexed b body =
    rw (append_assoc b.entries (entry_of none none (gather body) ∷ []) (gather body).found)

marks :
    (b : AesBlock) (body : List AesLine)
    → complete (mark_malformed b) body ≡ complete b (unknown_element ∷ body)
unfolding complete gather is_unknown
marks b body = rw (or_true b.malformed)

pub finish-step :
    (s : AesState) (l : AesLine) (ls : List AesLine) → finish (step s l) ls ≡ finish s (l ∷ ls)
unfolding finish step blocks reference_page read_sections cut
finish-step (outside d) (header kind sub ti) ls = refl
finish-step (outside d) broken_header ls = refl
finish-step (outside d) (indexed i e) ls = refl
finish-step (outside d) unindexed ls = refl
finish-step (outside d) unknown_element ls = refl
finish-step (outside d) (detail s a) ls = refl
finish-step (inside d b) (header kind sub ti) ls = closes d b _
finish-step (inside d b) broken_header ls = closes d b _
finish-step (inside d b) (indexed i e) ls = rw (begins-indexed b i e (cut ls).preamble)
finish-step (inside d b) unindexed ls = rw (begins-unindexed b (cut ls).preamble)
finish-step (inside d b) unknown_element ls = rw (marks b (cut ls).preamble)
finish-step (inside d b) (detail s a) ls = refl
finish-step (filling d b e) (header kind sub ti) ls =
    rw (extend-closed e [], closes d (append_entry b e))
finish-step (filling d b e) broken_header ls = rw (extend-closed e [], closes d (append_entry b e))
finish-step (filling d b e) (indexed i f) ls = rw (
  extend-closed e (gather (indexed i f ∷ (cut ls).preamble)).found,
  begins-indexed (append_entry b e) i f (cut ls).preamble,
)
finish-step (filling d b e) unindexed ls = rw (
  extend-closed e (gather (unindexed ∷ (cut ls).preamble)).found,
  begins-unindexed (append_entry b e) (cut ls).preamble,
)
finish-step (filling d b e) unknown_element ls =
    rw
      (extend-closed e (gather (cut ls).preamble).found, marks (append_entry b e) (cut ls).preamble)
finish-step (filling d b e) (detail s a) ls = rw (
  set_default-first_some e.device_slot_number s (gather (cut ls).preamble).slots,
  set_default-first_some e.sas_address a (gather (cut ls).preamble).addresses,
)

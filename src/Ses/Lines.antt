-- ===== src/Ses/Lines.antt =====
-- The regular expressions of backend/ktnmgr/enclosure/ses_parser.py for the additional element
-- status page and the configuration page. A digit is an ASCII one, as sg_ses prints.
use ktn_enclosure_manager.Common.{
  ℕ, Bool, not, ◌&&◌, ◌||◌, Option, none, some, [], ◌∷◌, leb, if◌then◌else◌, ◌==◌, nat_eq,
}
use ktn_enclosure_manager.Common.Regex.{
  is_digit, is_letter, is_any, int_of, first_match, lit, many, many1, many2, lazily, lazily1,
  at_end, search_in,
}
use ktn_enclosure_manager.Common.Text.{Text, codes, is_space, strip, lower}

-- `[0-9a-fA-F]`
abbrev is_hex_digit : ℕ → Bool
is_hex_digit c = is_digit c || ((leb 65 c && leb c 70) || (leb 97 c && leb c 102))

-- `\w`, for ASCII
abbrev is_word : ℕ → Bool
is_word c = is_letter c || (is_digit c || (c == 95))

-- `\s*` before what follows.
abbrev pub blanks {ℓ} : {R : Type ℓ} → (Text → Option R) → Text → Option R
blanks k = many is_space (λ _. k)

abbrev pub blanks1 {ℓ} : {R : Type ℓ} → (Text → Option R) → Text → Option R
blanks1 k = many1 is_space (λ _. k)

-- `_AES_TYPEDESC_RE.match`, the element type stripped as the caller does
unfoldable pub aes_header : Text → Option (Text × ℕ × ℕ)
unfolding is_space lit many many1 lazily1 strip
aes_header = blanks (
    lit (codes "Element type:") (
      blanks (
        lazily1 is_any λ kind. lit (codes ",") (
          blanks (
            lit (codes "subenclosure id:") (
              blanks (
                many1 is_digit λ sub. blanks (
                  lit (codes "[ti=") (
                    many1 is_digit λ ti.
                      lit (codes "]") (blanks (at_end (strip kind, int_of sub, int_of ti))))))))))))

-- `_AES_TYPEHDR_GUARD_RE.match`
unfoldable pub opens_type : Text → Option (Unit {0})
unfolding is_space lit many
opens_type = blanks (lit (codes "Element type:") λ _. some tt)

-- `_AES_ELEMENT_RE.match`: the index, and the `eiioe` if it is printed
unfoldable pub aes_element : Text → Option (ℕ × Option ℕ)
unfolding is_space lit many many1
aes_element = blanks (
    lit (codes "Element index:") (
      blanks (
        many1 is_digit λ i s.
          first_match
            (blanks1
              (lit (codes "eiioe=")
                (many1 is_digit λ e. blanks (at_end (int_of i, some (int_of e)))))
              s)
            (blanks (at_end (int_of i, none)) s))))

-- `_AES_ELEMENT_NOIDX_RE.match`
unfoldable pub aes_unindexed : Text → Option (Unit {0})
unfolding is_space lit many many1
aes_unindexed = blanks (
    lit (codes "Element")
      (blanks1 (many1 is_digit λ _. blanks1 (lit (codes "descriptor") (blanks (at_end tt))))))

-- `\b` after a letter
abbrev word_ends : Text → Option (Unit {0})
word_ends [] = some tt
word_ends (c ∷ s) = if is_word c then none else some tt

-- `_AES_ELEMENT_GUARD_RE.match`
unfoldable pub opens_element : Text → Option (Unit {0})
unfolding is_space lit many
opens_element = blanks (lit (codes "Element") word_ends)

-- `_AES_SLOT_RE.search`
unfoldable pub slot_number : Text → Option ℕ
unfolding is_space lit many many1 search_in
slot_number =
    search_in (lit (codes "device slot number:") (blanks (many1 is_digit λ n _. some (int_of n))))

-- `_AES_SAS_ADDR_RE.match`
unfoldable pub sas_address_in : Text → Option Text
unfolding is_space lit many many1
sas_address_in = blanks (
    lit (codes "SAS address:")
      (blanks (lit (codes "0x") (many1 is_hex_digit λ a. blanks (at_end (48 ∷ 120 ∷ a))))))

-- `_SUBENC_RE.match`
unfoldable pub subenclosure_line : Text → Option ℕ
unfolding is_space lit many many1
subenclosure_line =
    blanks (lit (codes "Subenclosure identifier:") (blanks (many1 is_digit λ n _. some (int_of n))))

-- `_LOGICAL_ID_RE.search`, lowered
unfoldable pub logical_id_in : Text → Option Text
unfolding is_space lit many many1 search_in lower
logical_id_in = search_in (
    lit (codes "enclosure logical identifier (hex):")
      (blanks (many1 is_hex_digit λ a _. some (lower a))))

-- `_VENDOR_RE.search`, its three groups stripped
unfoldable pub vendor_in : Text → Option (Text × Text × Text)
unfolding is_space lit many many2 lazily search_in strip
vendor_in = search_in (
    lit (codes "enclosure vendor:") (
      blanks (
        lazily is_any λ vendor. many2 is_space (
          lit (codes "product:") (
            blanks (
              lazily is_any λ product. many2 is_space (
                lit (codes "rev:") (
                  blanks (
                    many (λ c. not (is_space c))
                      λ rev _. some (strip vendor, strip product, strip rev))))))))))

-- `_TYPEDESC_RE.match`
unfoldable pub type_line : Text → Option (Text × ℕ)
unfolding is_space lit many many1 lazily1 strip
type_line = blanks (
    lit (codes "Element type:") (
      blanks (
        lazily1 is_any λ kind. lit (codes ",") (
          blanks (
            lit (codes "subenclosure id:")
              (blanks (many1 is_digit λ sub. blanks (at_end (strip kind, int_of sub)))))))))

-- `_COUNT_RE.match`
unfoldable pub count_line : Text → Option ℕ
unfolding is_space lit many many1
count_line =
    blanks
      (lit (codes "number of possible elements:") (blanks (many1 is_digit λ n _. some (int_of n))))

-- `_TEXT_RE.match`
unfoldable pub text_line : Text → Option Text
unfolding is_space lit many strip
text_line = blanks (lit (codes "text:") (blanks (many is_any λ t. at_end (strip t))))

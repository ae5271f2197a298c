-- ===== src/Locate/Validation.antt =====
-- What a validated request is, and that validating it again changes nothing.
use mathlib.Core.List.{reverse, reverse-reverse, reverse-append}
use ktn_enclosure_manager.Common.{
  ℕ, ℤ, pos, ◌≤◌, ◌≡◌, refl, true, false, [], ◌∷◌, ◌++◌, arith, length,
}
use ktn_enclosure_manager.Common.Text.{Text, is_space, lstrip, strip, lower_code, lower}
use ktn_enclosure_manager.Errors.{ok}
use ktn_enclosure_manager.Locate.Request.{
  PyValue, int_value, str_value, max_slot, is_hex, all_hex, is_enclosure_id, validate_request,
}

-- `0x`, then four to thirty-two lower-case hexadecimal digits.
pub record IsEnclosureId (s : Text) : Type 0 where
  pub digits : Text
  pub prefixed : s ≡ b'0' ∷ b'x' ∷ digits
  pub hex : all_hex digits ≡ true
  pub at_least : 4 ≤ length digits
  pub at_most : length digits ≤ 32

-- Neither white space nor upper case: the characters that `strip` and `lower` leave alone.
abbrev Plain : Text → Type 0
Plain [] = Unit
Plain (c ∷ s) = (is_space c ≡ false) × (lower_code c ≡ c ∷ []) × Plain s

hex_plain : (c : ℕ) → is_hex c ≡ true → (is_space c ≡ false) × (lower_code c ≡ c ∷ [])
unfolding is_space lower_code
hex_plain c h = ground arith

all_hex-Plain : (s : Text) → all_hex s ≡ true → Plain s
unfolding all_hex
all_hex-Plain [] h = tt
all_hex-Plain (c ∷ s) h = ground (arith, hex_plain c, all_hex-Plain s)

Plain-append : (s t : Text) → Plain s → Plain t → Plain (s ++ t)
Plain-append [] t hs ht = ht
Plain-append (c ∷ s) t hs ht = (hs.0, hs.1, Plain-append s t hs.2 ht)

Plain-reverse : (s : Text) → Plain s → Plain (reverse s)
Plain-reverse [] h = tt
Plain-reverse (c ∷ s) h =
    rw (reverse-append (c ∷ []) s)
      (Plain-append (reverse s) (c ∷ []) (Plain-reverse s h.2) (h.0, h.1, tt))

lstrip-Plain : (s : Text) → Plain s → lstrip s ≡ s
unfolding lstrip
lstrip-Plain [] h = refl
lstrip-Plain (c ∷ s) h = ground arith

strip-Plain : (s : Text) → Plain s → strip s ≡ s
unfolding strip
strip-Plain s h =
    rw (lstrip-Plain s h, lstrip-Plain (reverse s) (Plain-reverse s h)) (reverse-reverse s)

lower-Plain : (s : Text) → Plain s → lower s ≡ s
unfolding lower
lower-Plain [] h = refl
lower-Plain (c ∷ s) h = cc (h.1, lower-Plain s h.2)

is_enclosure_id-IsEnclosureId : (s : Text) → is_enclosure_id s ≡ true → IsEnclosureId s
unfolding is_enclosure_id
is_enclosure_id-IsEnclosureId [] h = cc
is_enclosure_id-IsEnclosureId (a ∷ []) h = cc
is_enclosure_id-IsEnclosureId (a ∷ b ∷ s) h = record {
  digits = s;
  prefixed = ground arith;
  hex = ground arith;
  at_least = ground arith;
  at_most = ground arith;
}

is_enclosure_id-Plain : (s : Text) → is_enclosure_id s ≡ true → Plain s
unfolding is_enclosure_id is_space lower_code
is_enclosure_id-Plain [] h = cc
is_enclosure_id-Plain (a ∷ []) h = cc
is_enclosure_id-Plain (a ∷ b ∷ s) h =
    let p : Plain s = all_hex-Plain s (ground arith) in
    (ground arith, ground arith, (ground arith, ground arith, p))

-- What `validate_request` accepts: the raw values were a text and an integer, the id is a logical
-- identifier and is the raw text stripped and lowered, and the slot lies between 0 and 1023.
pub validate_request_sound :
    (v w : PyValue) {key : Text × ℤ}
    → validate_request v w ≡ ok key
    → (raw : Text) × (n : ℕ) × (v ≡ str_value raw)
      × (w ≡ int_value (pos n))
      × (key ≡ (lower (strip raw), pos n))
      × IsEnclosureId key.0
      × (n ≤ max_slot)
unfolding validate_request
validate_request_sound (str_value raw) (int_value (pos n)) {key} h = (
  raw,
  n,
  refl,
  refl,
  ground arith,
  is_enclosure_id-IsEnclosureId key.0 (ground arith),
  ground arith,
)
validate_request_sound v w h = ground arith

-- A request that one side of the socket has validated is accepted unchanged by the other.
pub validate_request_idem :
    (v w : PyValue) {key : Text × ℤ}
    → validate_request v w ≡ ok key
    → validate_request (str_value key.0) (int_value key.1) ≡ ok key
unfolding validate_request
validate_request_idem (str_value raw) (int_value (pos n)) {key} h =
    let valid : is_enclosure_id key.0 ≡ true = ground arith in
    let plain : Plain key.0 = is_enclosure_id-Plain key.0 valid in
    ground (arith, lower-Plain key.0 plain, strip-Plain key.0 plain)
validate_request_idem v w h = ground arith

-- ===== src/Locate/Request.antt =====
-- `validate_request` of backend/ktnmgr/enclosure/locate.py, which the web process and the
-- privileged helper both run on what they are given.
use ktn_enclosure_manager.Common.{
  ℕ, ℤ, pos, negsuc, Bool, true, false, ◌&&◌, ◌||◌, [], ◌∷◌, ltb, leb, length, if◌then◌else◌, ◌==◌,
  nat_eq,
}
use ktn_enclosure_manager.Common.Text.{Text, strip, lower}
use ktn_enclosure_manager.Errors.{
  Outcome, ok, raise, locate_error, ◌>>=◌, ◌>>◌, refuse_if, id_not_string, invalid_id,
  slot_not_integer, slot_out_of_range,
}

-- What a field of a decoded request may hold. `bool` is told from `int`, as the code does.
pub data PyValue : Type 0 where
  none_value other_value : PyValue
  bool_value : Bool → PyValue
  int_value : ℤ → PyValue
  str_value : Text → PyValue

abbrev pub max_slot : ℕ
max_slot = 1023

abbrev pub is_hex : ℕ → Bool
is_hex c = (leb b'0' c && leb c b'9') || (leb b'a' c && leb c b'f')

unfoldable pub all_hex : Text → Bool
all_hex [] = true
all_hex (c ∷ s) = is_hex c && all_hex s

-- `^0x[0-9a-f]{4,32}$`. The text has been stripped, so `$` has no final newline to skip.
unfoldable pub is_enclosure_id : Text → Bool
unfolding all_hex
is_enclosure_id (a ∷ b ∷ s) =
    (a == b'0') && ((b == b'x') && (all_hex s && (leb 4 (length s) && leb (length s) 32)))
is_enclosure_id _ = false

unfoldable pub validate_id : PyValue → Outcome Text
unfolding is_enclosure_id strip lower
validate_id (str_value s) =
    let normalised = lower (strip s) in
    if is_enclosure_id normalised then ok normalised else raise (locate_error invalid_id)
validate_id _ = raise (locate_error id_not_string)

unfoldable pub validate_slot : PyValue → Outcome ℤ
validate_slot (int_value (pos n)) = do refuse_if (ltb max_slot n) slot_out_of_range; ok (pos n)
validate_slot (int_value (negsuc n)) = raise (locate_error slot_out_of_range)
validate_slot _ = raise (locate_error slot_not_integer)

unfoldable pub validate_request : PyValue → PyValue → Outcome (Text × ℤ)
unfolding validate_id validate_slot
validate_request enclosure_id slot = do
  normalised ← validate_id enclosure_id
  n ← validate_slot slot
  ok (normalised, n)

-- ===== src/Correlate/Json.antt =====
-- The JSON values that the TrueNAS client returns, and what backend/ktnmgr/truenas/correlate.py does
-- with them: `get`, truth, iteration, `str`, and the fields of a pydantic model. A number is whole and
-- not negative.
use ktn_enclosure_manager.Common.{
  ℕ, Bool, true, false, not, Option, none, some, List, [], ◌∷◌, ◌++◌, ◌-◌, leb, ◌&&◌, ◌||◌,
  if◌then◌else◌, ◌==◌, nat_eq, list_eq, ◌≡◌,
}
use ktn_enclosure_manager.Common.Text.{Text}
use ktn_enclosure_manager.Errors.{Outcome, ok, raise, other_exception}

mutual
  pub data Value : Type 0 where
    null : Value
    flag : Bool → Value
    number : ℕ → Value
    text : Text → Value
    arr : Values → Value
    obj : Fields → Value

  pub data Values : Type 0 where
    no_values : Values
    value_then : Value → Values → Values

  pub data Fields : Type 0 where
    end : Fields
    field : Text → Value → Fields → Fields

-- `bool(v)`
abbrev pub is_true : Value → Bool
is_true null = false
is_true (flag b) = b
is_true (number n) = not (n == 0)
is_true (text []) = false
is_true (text (c ∷ s)) = true
is_true (arr no_values) = false
is_true (arr (value_then x xs)) = true
is_true (obj end) = false
is_true (obj (field k v fs)) = true

-- `a or b`
abbrev pub or_value : Value → Value → Value
or_value a b = if is_true a then a else b

-- `fields.get(key)`
unfoldable pub field_at : Text → Fields → Value
field_at key end = null
field_at key (field k v fs) = if k == key then v else field_at key fs

-- `value.get(key)`: any value but a `dict` has no `get`.
unfoldable pub get_field : Text → Value → Outcome Value
unfolding field_at
get_field key (obj fs) = ok (field_at key fs)
get_field key _ = raise other_exception

abbrev pub list_of : Values → List Value
list_of no_values = []
list_of (value_then x xs) = x ∷ list_of xs

abbrev keys_of : Fields → List Value
keys_of end = []
keys_of (field k v fs) = text k ∷ keys_of fs

abbrev letters_of : Text → List Value
letters_of [] = []
letters_of (c ∷ s) = text (c ∷ []) ∷ letters_of s

-- `for x in v or []`: a `dict` gives its keys and a text its characters.
unfoldable pub items_of : Value → Outcome (List Value)
items_of null = ok []
items_of (flag b) = if b then raise other_exception else ok []
items_of (number n) = if n == 0 then ok [] else raise other_exception
items_of (text s) = ok (letters_of s)
items_of (arr xs) = ok (list_of xs)
items_of (obj fs) = ok (keys_of fs)

-- `value.get(key) or {}`, on which `get` is called next
abbrev pub object_at : Text → Value → Outcome Value
object_at key v = elim (get_field key v) [ ok x ↦ ok (or_value x (obj end)) | raise e ↦ raise e ]

-- `str.upper` of one character: ASCII, and the other code points whose upper case is made of ASCII
-- letters. Every other code point is left as it is: its upper case has a code point above 127.
unfoldable pub upper_code : ℕ → Text
upper_code c =
    if leb 97 c && leb c 122
    then (c - 32) ∷ []
    else if c == 0x131
    then 73 ∷ []
    else if c == 0x17f
    then 83 ∷ []
    else if c == 0xdf
    then 83 ∷ 83 ∷ []
    else if c == 0xfb00
    then 70 ∷ 70 ∷ []
    else if c == 0xfb01
    then 70 ∷ 73 ∷ []
    else if c == 0xfb02
    then 70 ∷ 76 ∷ []
    else if c == 0xfb03
    then 70 ∷ 70 ∷ 73 ∷ []
    else if c == 0xfb04
    then 70 ∷ 70 ∷ 76 ∷ []
    else if (c == 0xfb05) || (c == 0xfb06)
    then 83 ∷ 84 ∷ []
    else c ∷ []

unfoldable pub upper : Text → Text
unfolding upper_code
upper [] = []
upper (c ∷ s) = upper_code c ++ upper s

-- Python's `str`, and pydantic's validation of a field declared `str | None` and `int | None`.
pub record Fitting : Type 0 where
  pub str : Value → Text
  pub text_field : Value → Outcome (Option Text)
  pub int_field : Value → Outcome (Option ℕ)
  pub str_text : (t : Text) → str (text t) ≡ t
  pub text_field_null : text_field null ≡ ok none
  pub text_field_text : (t : Text) → text_field (text t) ≡ ok (some t)
  pub int_field_null : int_field null ≡ ok none
  pub int_field_number : (n : ℕ) → int_field (number n) ≡ ok (some n)

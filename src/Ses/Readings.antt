-- ===== src/Ses/Readings.antt =====
-- The regular expressions of the joined status page, `_speed_code_from_phrase` and `_finalise` of
-- backend/ktnmgr/enclosure/ses_parser.py, with `ChassisElement` of backend/ktnmgr/models.py.
-- A temperature is the integer that `float` is given.
use ktn_enclosure_manager.Common.{
  ℕ, ℤ, Bool, true, not, ◌||◌, Option, none, some, List, [], ◌∷◌, drop, if◌then◌else◌, ◌==◌, nat_eq,
  list_eq,
}
use ktn_enclosure_manager.Common.Dict.{Dict, get, put, has}
use ktn_enclosure_manager.Common.Regex.{
  is_digit, is_letter, is_any, int_of, first_match, lit, many, many1, lazily, lazily1, one, signed,
  at_end, line_ends, search_in, search_lines, find_all,
}
use ktn_enclosure_manager.Common.Text.{
  Text, codes, is_space, strip, lower, starts_with, words, join, strip_left, strip_right,
}
use ktn_enclosure_manager.Ses.Lines.{blanks, blanks1}

pub record ChassisElement : Type 0 where
  pub type_index : ℤ
  pub element_index : ℤ
  pub subenclosure_id : ℤ
  pub element_type : Text
  pub label : Text
  pub status : Text
  pub is_overall : Bool
  pub fields : Dict Text Text
  pub temperature_c : Option ℤ
  pub speed_rpm : Option ℕ
  pub speed_code : Option ℕ
  pub speed_phrase : Option Text
  pub requested_on : Option Bool

-- `_ELEMENT_RE.match`, the element type stripped as the caller does
unfoldable pub element_line : Text → Option (ℤ × ℤ × Text)
unfolding is_space lit many many1 lazily1 signed strip
element_line = lit (codes "[") (
    signed λ t. lit (codes ",") (
      signed λ e. lit (codes "]") (
        blanks1 (
          lit (codes "Element type:")
            (blanks (lazily1 is_any λ kind. blanks (at_end (t, e, strip kind))))))))

abbrev is_status_char : ℕ → Bool
is_status_char c = is_letter c || ((c == 32) || ((c == 46) || ((c == 47) || (c == 45))))

-- `_STATUS_RE.search`, stripped
unfoldable pub status_in : Text → Option Text
unfolding is_space lit many one lazily search_in strip
status_in = search_in (
    lit (codes "status:")
      (blanks (one is_letter λ c. lazily is_status_char λ w. blanks (line_ends (strip (c ∷ w))))))

-- `_TEMP_RE.search`
unfoldable pub temperature_in : Text → Option ℤ
unfolding is_space lit many signed search_in
temperature_in = search_in (
    lit (codes "Temperature")
      (blanks (lit (codes "=") (blanks (signed λ t. blanks (lit (codes "C") λ _. some t))))))

-- `_FAN_SPEED_RE.search`: the rpm, and the phrase if there is a comma after it
unfoldable pub fan_speed_in : Text → Option (ℕ × Option Text)
unfolding is_space lit many many1 search_in
fan_speed_in = search_in (
    lit (codes "Actual speed") (
      blanks (
        lit (codes "=") (
          blanks (
            many1 is_digit λ n. blanks (
              lit (codes "rpm") λ s.
                first_match
                  (blanks
                    (lit (codes ",")
                      (blanks (many is_any λ phrase _. some (int_of n, some phrase))))
                    s)
                  (some (int_of n, none))))))))

abbrev requested_at : Bool → Text → Option ℕ
requested_at begins s =
    let field = blanks (
      lit (codes "Requested on")
        (blanks (lit (codes "=") (blanks (many1 is_digit λ n _. some (int_of n)))))) in
    first_match (if begins then field s else none) (lit (codes ",") field s)

-- `_REQUESTED_ON_RE.search`
unfoldable pub requested_on_in : Text → Option ℕ
unfolding is_space lit many many1 search_lines
requested_on_in = search_lines true requested_at

abbrev is_key_char : ℕ → Bool
is_key_char c = is_status_char c || (is_digit c || (c == 95))

-- `_KV_RE.findall`
unfoldable pub key_values : Text → List (Text × Text)
unfolding is_space lit many many1 one lazily find_all
key_values =
    find_all
      (one is_letter λ c. lazily is_key_char λ key. blanks (
        lit (codes "=")
          (blanks (many1 (λ v. not (v == 44)) λ value left. some ((c ∷ key, value), left)))))
      0

-- `_SPEED_CODE_BY_PHRASE`
abbrev pub speed_code_by_phrase : Dict Text ℕ
speed_code_by_phrase =
    (codes "stopped", 0)
    ∷ (codes "at lowest speed", 1)
    ∷ (codes "at second lowest speed", 2)
    ∷ (codes "at third lowest speed", 3)
    ∷ (codes "at intermediate speed", 4)
    ∷ (codes "at third highest speed", 5)
    ∷ (codes "at second highest speed", 6)
    ∷ (codes "at highest speed", 7)
    ∷ []

abbrev is_closing : ℕ → Bool
is_closing c = (c == 46) || (c == 44)

unfoldable pub normalised_phrase : Text → Text
unfolding words join lower strip_left strip_right starts_with
normalised_phrase phrase =
    let normalised =
      strip_right is_closing (strip_left is_closing (lower (join (codes " ") (words phrase)))) in
    if starts_with (codes "fan ") normalised then drop 4 normalised else normalised

unfoldable pub speed_code_from_phrase : Text → Option ℕ
unfolding normalised_phrase get
speed_code_from_phrase phrase = get (normalised_phrase phrase) speed_code_by_phrase

-- What the searches of `_finalise` find in the lines of an element, in its order.
abbrev pub with_status : Option Text → ChassisElement → ChassisElement
with_status none e = e
with_status (some status) e = record e { status = status }

abbrev pub with_temperature : Option ℤ → ChassisElement → ChassisElement
with_temperature none e = e
with_temperature (some t) e = record e { temperature_c = some t }

-- `(speed.group("phrase") or "").strip()`
abbrev pub spoken : Option Text → Text
spoken none = []
spoken (some phrase) = strip phrase

abbrev pub with_phrase : Text → ChassisElement → ChassisElement
with_phrase [] e = e
with_phrase (c ∷ phrase) e = record e {
  speed_phrase = some (c ∷ phrase);
  speed_code = speed_code_from_phrase (c ∷ phrase);
}

abbrev pub with_speed : Option (ℕ × Option Text) → ChassisElement → ChassisElement
with_speed none e = e
with_speed (some (rpm, phrase)) e = with_phrase (spoken phrase) (record e { speed_rpm = some rpm })

abbrev pub with_requested_on : Option ℕ → ChassisElement → ChassisElement
with_requested_on none e = e
with_requested_on (some n) e = record e { requested_on = some (not (n == 0)) }

-- `stripped.split(":", 1)[1]` of a text with a colon
unfoldable pub after_colon : Text → Text
after_colon [] = []
after_colon (c ∷ s) = if c == 58 then s else after_colon s

-- `fields.setdefault("SAS address", address)`
unfoldable pub set_sas_address : Text → Dict Text Text → Dict Text Text
unfolding put
set_sas_address address fields =
    if has (codes "SAS address") fields then fields else put (codes "SAS address") address fields

abbrev is_comma : ℕ → Bool
is_comma c = c == 44

-- The loop over the pairs of a line.
unfoldable pub put_pairs : List (Text × Text) → Dict Text Text → Dict Text Text
unfolding put strip strip_right
put_pairs [] fields = fields
put_pairs ((key, value) ∷ rest) fields =
    let cleaned = strip_right is_comma (strip value) in
    put_pairs rest (elim cleaned as (λ _. Dict Text Text) [
      | [] ↦ fields
      | c ∷ cs ↦ put (strip key) cleaned fields
    ])

-- The tables that are skipped.
unfoldable pub is_table_line : Text → Bool
unfolding starts_with
is_table_line stripped =
    starts_with (codes "[") stripped
    || starts_with (codes "phy index") stripped
    || starts_with (codes "attached") stripped
    || starts_with (codes "SAS ") stripped
    || starts_with (codes "Transport") stripped

-- The loop of `_finalise` over the lines of the body.
unfoldable pub read_fields : List Text → Dict Text Text → Dict Text Text
unfolding strip starts_with after_colon set_sas_address is_table_line put_pairs key_values
read_fields [] fields = fields
read_fields (line ∷ rest) fields =
    let stripped = strip line in
    read_fields rest (
      if starts_with (codes "SAS address:") stripped
      then set_sas_address (strip (after_colon stripped)) fields
      else if is_table_line stripped
      then fields
      else put_pairs (key_values line) fields)

unfoldable pub finalise : ChassisElement → List Text → ChassisElement
unfolding join status_in temperature_in fan_speed_in requested_on_in speed_code_from_phrase
    read_fields
finalise element body =
    let blob = join (codes "\n") body in
    let read = with_requested_on (requested_on_in blob) (
      with_speed (fan_speed_in blob)
        (with_temperature (temperature_in blob) (with_status (status_in blob) element))) in
    record read { fields = read_fields body read.fields }

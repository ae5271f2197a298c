-- ===== src/Ses/Join.antt =====
-- `parse_join`, `parse_overall_flags` and `build_telemetry` of
-- backend/ktnmgr/enclosure/ses_parser.py, with `ChassisTelemetry` of backend/ktnmgr/models.py. The
-- time of collection is an argument.
use ktn_enclosure_manager.Common.{
  ℕ, ℤ, pos, negsuc, Bool, true, false, Option, none, some, List, [], ◌∷◌, ◌++◌, get_elem?,
}
use ktn_enclosure_manager.Common.Regex.{is_digit, int_of, lit, many1, lazily, search_in}
use ktn_enclosure_manager.Common.Text.{Text, codes, splitlines}
use ktn_enclosure_manager.Locate.Aes.{TypeDescriptor}
use ktn_enclosure_manager.Ses.Configuration.{Subenclosure, parse_configuration}
use ktn_enclosure_manager.Ses.Readings.{ChassisElement, element_line, finalise}

-- `descriptors[type_index] if 0 <= type_index < len(descriptors) else None`
unfoldable pub descriptor_at : List TypeDescriptor → ℤ → Option TypeDescriptor
descriptor_at ds (pos n) = get_elem? ds n
descriptor_at ds (negsuc n) = none

abbrev pub is_negative : ℤ → Bool
is_negative (pos n) = false
is_negative (negsuc n) = true

-- The element of a header line, before its body is read.
unfoldable pub new_element : List TypeDescriptor → ℤ × ℤ × Text → ChassisElement
unfolding descriptor_at
new_element ds h = record {
  type_index = h.0;
  element_index = h.1;
  subenclosure_id = elim (descriptor_at ds h.0) [
    | some d ↦ pos d.subenclosure_id
    | none ↦ negsuc 0
  ];
  element_type = h.2;
  label = elim (descriptor_at ds h.0) [ some d ↦ d.label | none ↦ h.2 ];
  status = codes "unknown";
  is_overall = is_negative h.1;
  fields = [];
  temperature_c = none;
  speed_rpm = none;
  speed_code = none;
  speed_phrase = none;
  requested_on = none;
}

-- The variables of the loop: the elements finished, and `current` with its `body`.
pub data Joining : Type 0 where
  no_current : List ChassisElement → Joining
  reading : List ChassisElement → ChassisElement → List Text → Joining

-- `_finalise(current, body)` and the append, where there is a current element
unfoldable pub elements_of : Joining → List ChassisElement
unfolding finalise
elements_of (no_current done) = done
elements_of (reading done current body) = done ++ finalise current body ∷ []

abbrev add_line : Joining → Text → Joining
add_line (no_current done) line = no_current done
add_line (reading done current body) line = reading done current (body ++ line ∷ [])

-- The body of the loop.
unfoldable pub join_line : List TypeDescriptor → Joining → Text → Joining
unfolding elements_of new_element element_line
join_line ds s line = elim (element_line line) [
  | some h ↦ reading (elements_of s) (new_element ds h) []
  | none ↦ add_line s line
]

unfoldable pub join_lines : List TypeDescriptor → Joining → List Text → Joining
unfolding join_line
join_lines ds s [] = s
join_lines ds s (line ∷ lines) = join_lines ds (join_line ds s line) lines

unfoldable pub parse_join : Text → List TypeDescriptor → List ChassisElement
unfolding join_lines elements_of splitlines
parse_join text ds = elements_of (join_lines ds (no_current []) (splitlines text))

-- The dict of `parse_overall_flags`: its five keys, or none of them.
pub record OverallFlags : Type 0 where
  pub invop : ℕ
  pub info : ℕ
  pub non_crit : ℕ
  pub crit : ℕ
  pub unrecov : ℕ

-- `(\d+).*?` and what follows, under `re.DOTALL`
abbrev flag_of {ℓ} : {R : Type ℓ} → Text → (ℕ → Text → Option R) → Text → Option R
flag_of key k = lit key (many1 is_digit λ n. k (int_of n))

abbrev then_flag {ℓ} : {R : Type ℓ} → Text → (ℕ → Text → Option R) → Text → Option R
then_flag key k = lazily (λ c. true) λ skipped. flag_of key k

unfoldable pub parse_overall_flags : Text → Option OverallFlags
unfolding lit many1 lazily search_in
parse_overall_flags = search_in (
    flag_of (codes "INVOP=") λ a. then_flag (codes "INFO=") λ b. then_flag (codes "NON-CRIT=") λ c.
      then_flag (codes "CRIT=") λ d.
        then_flag (codes "UNRECOV=")
          λ e s. some (record { invop = a; info = b; non_crit = c; crit = d; unrecov = e }))

pub record ChassisTelemetry : Type 0 where
  pub enclosure_id : Text
  pub subenclosures : List Subenclosure
  pub elements : List ChassisElement
  pub overall_flags : Option OverallFlags
  pub collected_at : ℕ
  pub stale : Bool
  pub error : Option Text

abbrev either_flags : Option OverallFlags → Option OverallFlags → Option OverallFlags
either_flags (some f) o = some f
either_flags none o = o

unfoldable pub build_telemetry : Text → Text → Text → ℕ → ChassisTelemetry
unfolding parse_join parse_overall_flags parse_configuration
build_telemetry enclosure_id configuration_text join_text now =
    let (subenclosures, descriptors) = parse_configuration configuration_text in
    record {
      enclosure_id = enclosure_id;
      subenclosures = subenclosures;
      elements = parse_join join_text descriptors;
      overall_flags =
          either_flags (parse_overall_flags join_text) (parse_overall_flags configuration_text);
      collected_at = now;
      stale = false;
      error = none;
    }

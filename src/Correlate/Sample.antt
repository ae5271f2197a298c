-- ===== src/Correlate/Sample.antt =====
-- A reading of JSON values for the tests of backend/ktnmgr/truenas/correlate.py.
use ktn_enclosure_manager.Common.{ℕ, Option, none, some, refl}
use ktn_enclosure_manager.Common.Text.{Text, codes}
use ktn_enclosure_manager.Errors.{Outcome, ok, raise, other_exception}
use ktn_enclosure_manager.Correlate.Json.{Value, null, number, text, Fitting}

abbrev str_of : Value → Text
str_of (text t) = t
str_of null = codes "None"
str_of _ = codes "?"

abbrev text_of : Value → Outcome (Option Text)
text_of null = ok none
text_of (text t) = ok (some t)
text_of _ = raise other_exception

abbrev number_of : Value → Outcome (Option ℕ)
number_of null = ok none
number_of (number n) = ok (some n)
number_of _ = raise other_exception

abbrev pub fitting : Fitting
fitting = record {
  str = str_of;
  text_field = text_of;
  int_field = number_of;
  str_text = λ t. refl;
  text_field_null = refl;
  text_field_text = λ t. refl;
  int_field_null = refl;
  int_field_number = λ n. refl;
}

-- ===== src/Ses/Speed.antt =====
-- The fan speed that `_finalise` of backend/ktnmgr/enclosure/ses_parser.py records.
use ktn_enclosure_manager.Common.{
  ℕ, ◌<◌, ℤ, Option, none, some, List, [], ◌∷◌, ◌≡◌, refl, arith, Bool-cases, some-injective, inl,
  inr, list_eq, nat_eq, subst, ◌==◌,
}
use ktn_enclosure_manager.Common.Dict.{Dict, get}
use ktn_enclosure_manager.Common.Text.{Text, codes, join}
use ktn_enclosure_manager.Locate.Aes.{TypeDescriptor}
use ktn_enclosure_manager.Ses.Readings.{
  ChassisElement, speed_code_by_phrase, normalised_phrase, speed_code_from_phrase, with_status,
  with_temperature, with_phrase, with_speed, spoken, with_requested_on, finalise, status_in,
  temperature_in, fan_speed_in, requested_on_in,
}
use ktn_enclosure_manager.Ses.Join.{new_element}

-- The recorded code, if any, is that of the recorded phrase.
abbrev IsSpoken : ChassisElement → Type 0
IsSpoken e =
    (c : ℕ)
    → e.speed_code ≡ some c
    → (phrase : Text) × (e.speed_phrase ≡ some phrase) × (speed_code_from_phrase phrase ≡ some c)

with_status-IsSpoken :
    (o : Option Text) (e : ChassisElement) → IsSpoken e → IsSpoken (with_status o e)
with_status-IsSpoken none e p = p
with_status-IsSpoken (some s) e p = p

with_temperature-IsSpoken :
    (o : Option ℤ) (e : ChassisElement) → IsSpoken e → IsSpoken (with_temperature o e)
with_temperature-IsSpoken none e p = p
with_temperature-IsSpoken (some t) e p = p

with_phrase-IsSpoken :
    (phrase : Text) (e : ChassisElement) → IsSpoken e → IsSpoken (with_phrase phrase e)
with_phrase-IsSpoken [] e p = p
with_phrase-IsSpoken (l ∷ phrase) e p = λ c h. (l ∷ phrase, refl, h)

with_speed-IsSpoken :
    (o : Option (ℕ × Option Text)) (e : ChassisElement) → IsSpoken e → IsSpoken (with_speed o e)
with_speed-IsSpoken none e p = p
with_speed-IsSpoken (some (rpm, phrase)) e p =
    with_phrase-IsSpoken (spoken phrase) (record e { speed_rpm = some rpm }) p

with_requested_on-IsSpoken :
    (o : Option ℕ) (e : ChassisElement) → IsSpoken e → IsSpoken (with_requested_on o e)
with_requested_on-IsSpoken none e p = p
with_requested_on-IsSpoken (some n) e p = p

finalise-IsSpoken :
    (e : ChassisElement) (body : List Text) → IsSpoken e → IsSpoken (finalise e body)
unfolding finalise
finalise-IsSpoken e body p =
    let blob = join (codes "\n") body in
    let e1 = with_status (status_in blob) e in
    let e2 = with_temperature (temperature_in blob) e1 in
    let e3 = with_speed (fan_speed_in blob) e2 in
    let p1 = with_status-IsSpoken (status_in blob) e p in
    let p2 = with_temperature-IsSpoken (temperature_in blob) e1 p1 in
    let p3 = with_speed-IsSpoken (fan_speed_in blob) e2 p2 in
    with_requested_on-IsSpoken (requested_on_in blob) e3 p3

data AllBelow (n : ℕ) : Dict Text ℕ → Type 0 where
  no_codes : AllBelow n []
  code_below :
      {key : Text} {c : ℕ} {d : Dict Text ℕ} → c < n → AllBelow n d → AllBelow n ((key, c) ∷ d)

get-AllBelow :
    {n : ℕ} (key : Text) {d : Dict Text ℕ} (c : ℕ) → AllBelow n d → get key d ≡ some c → c < n
unfolding get
get-AllBelow key c no_codes h = cc
get-AllBelow {n = n} key {d = (k, v) ∷ d} c (code_below lt rest) h = elim (Bool-cases (k == key)) [
  | inl t ↦ subst (λ x. x < n) (some-injective (rw (t, get) at h)) lt
  | inr f ↦ get-AllBelow key c rest (rw (f, get) at h)
]

speed_code_by_phrase-AllBelow : AllBelow 8 speed_code_by_phrase
speed_code_by_phrase-AllBelow = code_below (omega arith) (
    code_below (omega arith) (
      code_below (omega arith) (
        code_below (omega arith) (
          code_below (omega arith) (
            code_below (omega arith)
              (code_below (omega arith) (code_below (omega arith) no_codes)))))))

-- A speed code is recorded only beside a printed phrase of which it is the code: never a default;
-- and it is one of the eight codes of SES-3.
pub speed_code_lem :
    (ds : List TypeDescriptor) (h : ℤ × ℤ × Text) (body : List Text) (c : ℕ)
    → (finalise (new_element ds h) body).speed_code ≡ some c
    → (c < 8)
      × ((phrase : Text) × ((finalise (new_element ds h) body).speed_phrase ≡ some phrase)
          × (speed_code_from_phrase phrase ≡ some c))
unfolding speed_code_from_phrase new_element
speed_code_lem ds h body c e =
    let (phrase, printed, code) = finalise-IsSpoken (new_element ds h) body (λ d g. cc) c e in
    (
      get-AllBelow (normalised_phrase phrase) c speed_code_by_phrase-AllBelow code,
      (phrase, printed, code),
    )

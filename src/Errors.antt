-- ===== src/Errors.antt =====
-- The exceptions that cross the layers of the backend: `LocateError` of enclosure/locate.py with
-- the reason of each `raise`, the two `LookupError`s of enclosure/sysfs.py, `AuthError` of
-- services/auth.py and `OSError`.
use ktn_enclosure_manager.Common.{Bool, true, false, ◌≡◌, refl, ◌⊎◌, inl, inr}

-- Why an IDENT operation was refused, one for each message.
pub data Refusal : Type 0 where
  id_not_string invalid_id slot_not_integer slot_out_of_range : Refusal
  no_sg_device configuration_unreadable no_bay_elements : Refusal
  aes_unreadable no_addressable_slot ambiguous_slot unmapped_slot ident_command_failed : Refusal
  write_failed unsupported_operation helper_unavailable helper_refused : Refusal
  duration_not_offered verification_failed : Refusal
  unknown_method sg_ses_unavailable : Refusal
  malformed_request request_not_object page_not_allowed ses_read_failed : Refusal
  not_in_allowlist enclosure_not_attached slot_not_present : Refusal

-- Why an account operation was refused.
pub data AuthRefusal : Type 0 where
  accounts_unreadable accounts_not_object account_exists invalid_username reserved_username :
      AuthRefusal
  short_password same_password no_such_account invalid_credentials : AuthRefusal

pub data Exception : Type 0 where
  locate_error : Refusal → Exception
  enclosure_not_found : Exception
  slot_not_found : Exception
  auth_error : AuthRefusal → Exception
  os_error : Exception
  other_exception : Exception

-- `except (LocateError, LookupError)`: both errors of sysfs.py derive from `LookupError`.
abbrev pub is_locate_or_lookup : Exception → Bool
is_locate_or_lookup (locate_error _) = true
is_locate_or_lookup enclosure_not_found = true
is_locate_or_lookup slot_not_found = true
is_locate_or_lookup (auth_error _) = false
is_locate_or_lookup os_error = false
is_locate_or_lookup other_exception = false

-- A call that returns a value or raises.
pub data Outcome {ℓ} (A : Type ℓ) : Type ℓ where
  ok : A → Outcome A
  raise : Exception → Outcome A

infixl 5 ◌>>=◌ ◌>>◌
abbrev pub ◌>>=◌ {ℓ κ} : {A : Type ℓ} {B : Type κ} → Outcome A → (A → Outcome B) → Outcome B
ok a >>= f = f a
raise e >>= f = raise e

abbrev pub ◌>>◌ {ℓ} : {B : Type ℓ} → Outcome (Unit {0}) → Outcome B → Outcome B
m >> k = m >>= λ _. k

-- `if refused: raise LocateError(...)`
abbrev pub refuse_if : Bool → Refusal → Outcome (Unit {0})
refuse_if true r = raise (locate_error r)
refuse_if false r = ok tt

pub Outcome-cases {ℓ} :
    {A : Type ℓ} (o : Outcome A) → ((a : A) × (o ≡ ok a)) ⊎ ((e : Exception) × (o ≡ raise e))
Outcome-cases (ok a) = inl (a, refl)
Outcome-cases (raise e) = inr (e, refl)

abbrev pub is_ok {ℓ} : {A : Type ℓ} → Outcome A → Bool
is_ok (ok _) = true
is_ok (raise _) = false

pub ok-injective {ℓ} : {A : Type ℓ} {a b : A} → ok a ≡ ok b → a ≡ b
ok-injective h = cc

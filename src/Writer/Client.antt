-- ===== src/Writer/Client.antt =====
-- The web process's side of the helper's socket: `send` of
-- backend/ktnmgr/enclosure/helper_client.py and `HelperLocateWriter` of
-- backend/ktnmgr/enclosure/locate.py. The socket is a parameter.
use ktn_enclosure_manager.Common.{
  ℕ, ◌+◌, ◌*◌, ℤ, pos, Bool, true, false, not, ◌||◌, Option, none, some, List, [], ◌∷◌, ◌++◌,
  length, ltb, if◌then◌else◌, ◌==◌, nat_eq, int_eq, list_eq,
}
use ktn_enclosure_manager.Common.Dict.{Dict, get}
use ktn_enclosure_manager.Common.Text.{Text, codes, strip}
use ktn_enclosure_manager.Errors.{
  Outcome, ok, raise, locate_error, helper_unavailable, helper_refused, unsupported_operation,
}
use ktn_enclosure_manager.Locate.Request.{
  PyValue, none_value, other_value, bool_value, int_value, str_value, validate_request,
}
use ktn_enclosure_manager.Writer.Helper.{
  Codec, Decoded, malformed, not_object, object, field, or_braces,
}

-- The socket: a line is sent and the chunks are received up to the end; none is an `OSError`.
pub record Socket (S : Type 0) : Type 0 where
  pub exchange : S → Text → Option (List Text) × S

abbrev pub max_response_bytes : ℕ
max_response_bytes = 8 * 1024 * 1024

-- `chunk.endswith(b"\n")`
unfoldable pub ends_line : Text → Bool
ends_line [] = false
ends_line (c ∷ []) = c == 10
ends_line (c ∷ d ∷ s) = ends_line (d ∷ s)

-- The loop over `client.recv`, with `total` the bytes so far; none if there are too many.
unfoldable pub receive : ℕ → List Text → Option Text
unfolding ends_line
receive total [] = some []
receive total ([] ∷ chunks) = some []
receive total ((c ∷ chunk) ∷ chunks) =
    let rest = receive (total + length (c ∷ chunk)) chunks in
    if ltb max_response_bytes (total + length (c ∷ chunk))
    then none
    else if ends_line (c ∷ chunk)
    then some (c ∷ chunk)
    else elim rest [ none ↦ none | some r ↦ some ((c ∷ chunk) ++ r) ]

-- `bool(value)`, an `other_value` being a number that is not 0 or a container that is not empty
abbrev pub truth : PyValue → Bool
truth none_value = false
truth other_value = true
truth (bool_value b) = b
truth (int_value n) = not (n == pos 0)
truth (str_value s) = not (s == [])

abbrev pub as_object : Decoded → Option (Dict Text PyValue)
as_object malformed = none
as_object not_object = none
as_object (object d) = some d

-- The end of `_request`.
abbrev pub answer_of : Option (Dict Text PyValue) → Outcome Bool
answer_of none = raise (locate_error helper_unavailable)
answer_of (some response) =
    if truth (field (codes "ok") response)
    then ok (truth (field (codes "locate") response))
    else raise (locate_error helper_refused)

abbrev pub request_of : Text → Text → ℤ → Dict Text PyValue
request_of op enclosure_id slot =
    (codes "op", str_value op)
    ∷ (codes "enclosure_id", str_value enclosure_id)
    ∷ (codes "slot", int_value slot)
    ∷ []

-- `VALID_OPS`
abbrev is_valid_op : Text → Bool
is_valid_op op =
    (op == codes "identify_on") || ((op == codes "identify_off") || (op == codes "identify_read"))

abbrev pub op_of : Bool → Text
op_of true = codes "identify_on"
op_of false = codes "identify_off"

module _ {S : Type 0} (codec : Codec) (socket : Socket S) where
  -- None is a `HelperUnavailableError`.
  unfoldable pub send : Dict Text PyValue → S → Option (Dict Text PyValue) × S
  unfolding receive strip
  send payload s =
      let (chunks, after) = socket.exchange s (codec.dumps payload ++ 10 ∷ []) in
      elim chunks [
        | none ↦ (none, after)
        | some cs ↦ elim (receive 0 cs) [
          | none ↦ (none, after)
          | some raw ↦ (as_object (codec.loads (or_braces (strip raw))), after)
        ]
      ]

  unfoldable pub request : Text → Text → ℤ → S → Outcome Bool × S
  unfolding validate_request send get
  request op enclosure_id slot s =
      if not (is_valid_op op)
      then (raise (locate_error unsupported_operation), s)
      else elim (validate_request (str_value enclosure_id) (int_value slot)) [
        | raise e ↦ (raise e, s)
        | ok valid ↦
            let (response, after) = send (request_of op valid.0 valid.1) s in
            (answer_of response, after)
      ]

  unfoldable pub helper_read : Text → ℤ → S → Outcome Bool × S
  unfolding request
  helper_read = request (codes "identify_read")

  unfoldable pub helper_write : Text → ℤ → Bool → S → Outcome Bool × S
  unfolding request
  helper_write enclosure_id slot on = request (op_of on) enclosure_id slot

-- ===== src/Writer/Helper.antt =====
-- `IdentHandler` of helper/ktn_ident_helper.py, `send` of backend/ktnmgr/enclosure/helper_client.py,
-- and `HelperLocateWriter` and `build_locate_writer` of backend/ktnmgr/enclosure/locate.py. The
-- codec, Python's `json` over UTF-8, and the text of an exception are parameters.
use ktn_enclosure_manager.Common.{
  ℤ, pos, Bool, true, false, not, Option, none, some, List, [], ◌∷◌, ◌++◌, any, if◌then◌else◌, ◌==◌,
  nat_eq, list_eq, is_some,
}
use ktn_enclosure_manager.Common.Dict.{Dict, get}
use ktn_enclosure_manager.Common.Text.{Text, codes, strip}
use ktn_enclosure_manager.Errors.{
  Exception, Outcome, ok, raise, ◌>>=◌, ◌>>◌, refuse_if, locate_error, enclosure_not_found,
  slot_not_found, os_error, malformed_request, request_not_object, page_not_allowed,
  not_in_allowlist, enclosure_not_attached, no_sg_device, ses_read_failed, unsupported_operation,
  slot_not_present, write_failed,
}
use ktn_enclosure_manager.Locate.Request.{
  PyValue, none_value, bool_value, int_value, str_value, validate_request,
}
use ktn_enclosure_manager.Locate.Plan.{Plans, is_absent}
use ktn_enclosure_manager.Sysfs.Tree.{Kernel}
use ktn_enclosure_manager.Sysfs.Scan.{EnclosureRef, Roots, resolve, read_locate}
use ktn_enclosure_manager.Writer.Runner.{
  Shell, read_only_pages, version, read_page, SesOutcome, done, ses_error,
}
use ktn_enclosure_manager.Writer.Local.{LocateWriter}

-- What `json.loads` gives: a `ValueError`, an object, or another value.
pub data Decoded : Type 0 where
  malformed not_object : Decoded
  object : Dict Text PyValue → Decoded

pub record Codec : Type 0 where
  pub dumps : Dict Text PyValue → Text
  -- of the bytes, the decoding of UTF-8 included
  pub loads : Text → Decoded

-- `raw.decode("utf-8").strip() or "{}"`
abbrev pub or_braces : Text → Text
or_braces [] = codes "{}"
or_braces (c ∷ s) = c ∷ s

-- `request.get(key)`
abbrev pub field : Text → Dict Text PyValue → PyValue
field key d = elim (get key d) as (λ _. PyValue) [ none ↦ none_value | some v ↦ v ]

-- `value == name`
abbrev pub is_text : Text → PyValue → Bool
is_text name (str_value s) = s == name
is_text name _ = false

-- `page not in READ_ONLY_PAGES`
abbrev pub page_named : PyValue → Option Text
page_named (str_value s) = if is_some (get s read_only_pages) then some s else none
page_named _ = none

abbrev pub answer_locate : Bool → Dict Text PyValue
answer_locate state = (codes "ok", bool_value true) ∷ (codes "locate", bool_value state) ∷ []

-- `except EnclosureNotFoundError`
abbrev pub as_not_attached : {A : Type 0} → Outcome A → Outcome A
as_not_attached (raise enclosure_not_found) = raise (locate_error enclosure_not_attached)
as_not_attached o = o

-- `except SlotNotFoundError` and `except OSError`
abbrev pub as_refused : Outcome Bool → Outcome Bool
as_refused (raise slot_not_found) = raise (locate_error slot_not_present)
as_refused (raise os_error) = raise (locate_error write_failed)
as_refused o = o

-- `self.allowlist and enclosure_id not in self.allowlist`
unfoldable pub is_barred : List Text → Text → Bool
is_barred [] id = false
is_barred (a ∷ allowed) id = not (any (λ x. x == id) (a ∷ allowed))

-- The response to a request.
abbrev pub response_of : (Exception → Text) → Outcome (Dict Text PyValue) → Dict Text PyValue
response_of message (ok d) = d
response_of message (raise e) =
    (codes "ok", bool_value false) ∷ (codes "error", str_value (message e)) ∷ []

-- The operation of an `identify_` name, as the writer's `on`; none to read.
abbrev pub operation : PyValue → Option (Option Bool)
operation op =
    if is_text (codes "identify_on") op
    then some (some true)
    else if is_text (codes "identify_off") op
    then some (some false)
    else if is_text (codes "identify_read") op
    then some none
    else none

module _ {W : Type 0} (k : Kernel W) (roots : Roots) (binary : Text) (shell : Shell W)
    (writer : LocateWriter (W × Plans)) (allowlist : List Text) where
  -- The checks before a page is read.
  unfoldable pub admit_read : Dict Text PyValue → W → Outcome EnclosureRef
  unfolding validate_request is_barred resolve get
  admit_read request w = do
    valid ← validate_request (field (codes "enclosure_id") request) (int_value (pos 0))
    refuse_if (is_barred allowlist valid.0) not_in_allowlist
    ref ← as_not_attached (resolve k w roots valid.0)
    refuse_if (is_absent ref.sg_device) no_sg_device
    ok ref

  unfoldable pub answer_page : SesOutcome Text × W → Outcome (Dict Text PyValue) × W
  answer_page (ses_error e, after) = (raise (locate_error ses_read_failed), after)
  answer_page (done out, after) =
      (ok ((codes "ok", bool_value true) ∷ (codes "output", str_value out) ∷ []), after)

  unfoldable pub read_device : Text → Option Text → W → Outcome (Dict Text PyValue) × W
  unfolding read_page answer_page
  read_device page none w = (raise (locate_error no_sg_device), w)
  read_device page (some device) w = answer_page (read_page binary shell device page w)

  -- `ses_read`
  unfoldable pub dispatch_read : Dict Text PyValue → W → Outcome (Dict Text PyValue) × W
  unfolding admit_read read_device get
  dispatch_read request w = elim (page_named (field (codes "page") request)) [
    | none ↦ (raise (locate_error page_not_allowed), w)
    | some page ↦ elim (admit_read request w) [
      | raise e ↦ (raise e, w)
      | ok ref ↦ read_device page ref.sg_device w
    ]
  ]

  -- The checks before an operation: the enclosure and the slot.
  unfoldable pub admit : Dict Text PyValue → W → Outcome ((Text × ℤ) × EnclosureRef)
  unfolding validate_request is_barred resolve get
  admit request w = do
    valid ← validate_request (field (codes "enclosure_id") request) (field (codes "slot") request)
    refuse_if (is_barred allowlist valid.0) not_in_allowlist
    ref ← as_not_attached (resolve k w roots valid.0)
    ok (valid, ref)

  unfoldable pub perform :
      Option Bool → (Text × ℤ) × EnclosureRef → W × Plans → Outcome Bool × (W × Plans)
  unfolding read_locate
  perform none admitted s = (as_refused (read_locate k s.0 admitted.1 admitted.0.1), s)
  perform (some on) admitted s =
      let (o, after) = writer.write admitted.0.0 admitted.0.1 on s in (as_refused o, after)

  unfoldable pub dispatch_object :
      Dict Text PyValue → W × Plans → Outcome (Dict Text PyValue) × (W × Plans)
  unfolding version dispatch_read admit perform get
  dispatch_object request s =
      if is_text (codes "ses_version") (field (codes "op") request)
      then (let (v, after) = version binary shell s.0 in
          (
            ok ((codes "ok", bool_value true) ∷ (codes "version", version_value v) ∷ []),
            (after, s.1),
          ))
      else if is_text (codes "ses_read") (field (codes "op") request)
      then (let (o, after) = dispatch_read request s.0 in (o, (after, s.1)))
      else elim (operation (field (codes "op") request)) [
        | none ↦ (raise (locate_error unsupported_operation), s)
        | some on ↦ elim (admit request s.0) [
          | raise e ↦ (raise e, s)
          | ok admitted ↦
              let (o, after) = perform on admitted s in
              (o >>= λ state. ok (answer_locate state), after)
        ]
      ]
    where
      version_value : Option Text → PyValue
      version_value none = none_value
      version_value (some v) = str_value v

  module _ (codec : Codec) (message : Exception → Text) where
    unfoldable pub dispatch : Text → W × Plans → Outcome (Dict Text PyValue) × (W × Plans)
    unfolding dispatch_object strip
    dispatch raw s = elim (codec.loads (or_braces (strip raw))) [
      | malformed ↦ (raise (locate_error malformed_request), s)
      | not_object ↦ (raise (locate_error request_not_object), s)
      | object request ↦ dispatch_object request s
    ]

    -- `handle` of a request line that has come; the line that it writes back.
    unfoldable pub handle : Text → W × Plans → Text × (W × Plans)
    unfolding dispatch
    handle raw s =
        let (o, after) = dispatch raw s in (codec.dumps (response_of message o) ++ 10 ∷ [], after)

-- ===== src/Polling/HelperRunner.antt =====
-- `HelperSesRunner` of backend/ktnmgr/enclosure/ses.py: the pages that the helper reads for the web
-- process.
use ktn_enclosure_manager.Common.{
  Bool, Option, none, some, [], ◌∷◌, is_some, if◌then◌else◌, ◌==◌, nat_eq, list_eq,
}
use ktn_enclosure_manager.Common.Dict.{Dict, get}
use ktn_enclosure_manager.Common.Text.{Text, codes}
use ktn_enclosure_manager.Locate.Request.{PyValue, str_value}
use ktn_enclosure_manager.Writer.Client.{Socket, send, truth}
use ktn_enclosure_manager.Writer.Helper.{Codec, field}
use ktn_enclosure_manager.Writer.Runner.{read_only_pages}
use ktn_enclosure_manager.Polling.Runner.{Page, output, unread, Runner}

-- The texts of the errors, Python's `str`, and whether the socket's path exists.
pub record HelperReads (S : Type 0) : Type 0 where
  pub str : PyValue → Text
  pub not_listed : Text
  pub unavailable : Text
  pub exists : S → Bool

abbrev pub no_reason : Text
no_reason = codes "helper refused the SES read"

-- `str(value or default)`
abbrev pub str_or : (PyValue → Text) → Text → PyValue → Text
str_or str default v = if truth v then str v else default

abbrev pub version_request : Dict Text PyValue
version_request = (codes "op", str_value (codes "ses_version")) ∷ []

abbrev pub read_request : Text → Text → Dict Text PyValue
read_request enclosure_id page =
    (codes "op", str_value (codes "ses_read"))
    ∷ (codes "enclosure_id", str_value enclosure_id)
    ∷ (codes "page", str_value page)
    ∷ []

abbrev pub version_of : (PyValue → Text) → PyValue → Option Text
version_of str v = if str_or str [] v == [] then none else some (str_or str [] v)

module _ {S : Type 0} (codec : Codec) (socket : Socket S) (r : HelperReads S) where
  -- `version`, with `_version`, which is kept once it is known.
  unfoldable pub helper_version : Option Text → S → Option Text × S
  unfolding send get
  helper_version (some v) s = (some v, s)
  helper_version none s =
      let (response, after) = send codec socket version_request s in
      elim response [
        | none ↦ (none, after)
        | some d ↦ (version_of r.str (field (codes "version") d), after)
      ]

  -- The end of `read_page_for`.
  unfoldable pub page_in : Option (Dict Text PyValue) → Page
  unfolding get
  page_in none = unread r.unavailable
  page_in (some d) =
      if truth (field (codes "ok") d)
      then output (str_or r.str [] (field (codes "output") d))
      else unread (str_or r.str no_reason (field (codes "error") d))

  unfoldable pub read_page_for : Text → Text → S → Page × S
  unfolding send page_in get
  read_page_for enclosure_id page s =
      if is_some (get page read_only_pages)
      then (let (response, after) = send codec socket (read_request enclosure_id page) s in
          (page_in response, after))
      else (unread r.not_listed, s)

  unfoldable pub helper_runner : Runner S
  unfolding read_page_for
  helper_runner = record {
    available = r.exists;
    read_for = λ ref page s. read_page_for ref.logical_id page s;
  }

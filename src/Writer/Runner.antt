-- ===== src/Writer/Runner.antt =====
-- `SesRunner` of backend/ktnmgr/enclosure/ses.py. `subprocess.run` is a parameter; the lock of
-- backend/ktnmgr/enclosure/access.py orders processes and changes no value, and is left out.
use ktn_enclosure_manager.Common.{
  ℕ, Bool, true, false, not, ◌&&◌, ◌||◌, Option, none, some, List, [], ◌∷◌, ◌++◌, leb,
  if◌then◌else◌, ◌==◌, nat_eq, list_eq,
}
use ktn_enclosure_manager.Common.Dict.{Dict, get}
use ktn_enclosure_manager.Common.Text.{Text, codes, strip}
use ktn_enclosure_manager.Locate.Plan.{Pages, is_absent}
use ktn_enclosure_manager.Ses.AesPage.{parse_additional_element_status}
use ktn_enclosure_manager.Ses.Configuration.{parse_configuration}
use ktn_enclosure_manager.Writer.Paths.{is_absolute, path_text, parent_name, decimal}

-- How `subprocess.run` ends: `TimeoutExpired`, an `OSError`, or a process that has ended, with
-- whether its code is not 0 and what it wrote.
pub data ProcessEnd : Type 0 where
  timed_out not_executed : ProcessEnd
  ended : Bool → Text → Text → ProcessEnd

pub record Shell (W : Type 0) : Type 0 where
  pub execute : W → List Text → ProcessEnd × W
  pub is_file : W → Text → Bool

-- `READ_ONLY_PAGES`
abbrev pub read_only_pages : Dict Text (List Text)
read_only_pages =
    (codes "configuration", codes "-p" ∷ codes "cf" ∷ [])
    ∷ (codes "enclosure_status", codes "-p" ∷ codes "es" ∷ [])
    ∷ (codes "additional_element_status", codes "-p" ∷ codes "aes" ∷ [])
    ∷ (codes "join", codes "--join" ∷ [])
    ∷ (codes "join_filtered", codes "--join" ∷ codes "--filter" ∷ [])
    ∷ []

-- The errors of the runner: each is a `SesError`.
pub data SesFailure : Type 0 where
  page_not_listed bad_device bad_index ses_timed_out ses_not_executed ses_failed no_device :
      SesFailure

pub data SesOutcome (A : Type 0) : Type 0 where
  done : A → SesOutcome A
  ses_error : SesFailure → SesOutcome A

-- `IDENT_ARGS`
abbrev pub ident_args : Bool → Text
ident_args true = codes "--set=ident"
ident_args false = codes "--clear=ident"

-- `(proc.stdout or proc.stderr).strip() or None`
abbrev version_text : ProcessEnd → Option Text
version_text timed_out = none
version_text not_executed = none
version_text (ended failed [] err) = if strip err == [] then none else some (strip err)
version_text (ended failed (c ∷ out) err) =
    if strip (c ∷ out) == [] then none else some (strip (c ∷ out))

-- The end of `read_page`: the standard output.
abbrev pub page_of : ProcessEnd → SesOutcome Text
page_of timed_out = ses_error ses_timed_out
page_of not_executed = ses_error ses_not_executed
page_of (ended failed out err) =
    if failed && (strip out == []) then ses_error ses_failed else done out

abbrev pub ident_of : ProcessEnd → SesOutcome (Unit {0})
ident_of timed_out = ses_error ses_timed_out
ident_of not_executed = ses_error ses_not_executed
ident_of (ended failed out err) = if failed then ses_error ses_failed else done tt

abbrev parsed : {A : Type 0} → (Text → A) → SesOutcome Text → Option A
parsed f (done out) = some (f out)
parsed f (ses_error e) = none

abbrev device_of : Option Text → Text
device_of none = []
device_of (some d) = d

module _ (binary : Text) where
  abbrev pub read_argv : List Text → Text → List Text
  read_argv args device =
      binary ∷ codes "--no-time" ∷ codes "--readonly" ∷ args ++ path_text device ∷ []

  abbrev pub ident_argv : Text → ℕ → ℕ → Bool → List Text
  ident_argv device type_index element_index on =
      binary
      ∷ codes "--no-time"
      ∷ (codes "--index=" ++ (decimal type_index ++ (codes "," ++ decimal element_index)))
      ∷ ident_args on
      ∷ path_text device
      ∷ []

  module _ {W : Type 0} (shell : Shell W) where
    unfoldable pub ses_available : W → Bool
    ses_available w = shell.is_file w binary

    unfoldable pub version : W → Option Text × W
    unfolding strip
    version w =
        let (run, after) = shell.execute w (binary ∷ codes "--version" ∷ []) in
        (version_text run, after)

    unfoldable pub read_page : Text → Text → W → SesOutcome Text × W
    unfolding get is_absolute path_text parent_name strip
    read_page device page w = elim (get page read_only_pages) [
      | none ↦ (ses_error page_not_listed, w)
      | some args ↦
          if not (is_absolute device)
            || ((parent_name device == []) || (parent_name device == codes "."))
          then (ses_error bad_device, w)
          else (let (run, after) = shell.execute w (read_argv args device) in (page_of run, after))
    ]

    unfoldable pub read_for : Option Text → Text → W → SesOutcome Text × W
    unfolding read_page
    read_for none page w = (ses_error no_device, w)
    read_for (some device) page w =
        if is_absent (some device) then (ses_error no_device, w) else read_page device page w

    unfoldable pub set_ident : Text → ℕ → ℕ → Bool → W → SesOutcome (Unit {0}) × W
    unfolding is_absolute path_text decimal
    set_ident device type_index element_index on w =
        if not (leb type_index 1023) || not (leb element_index 1023)
        then (ses_error bad_index, w)
        else if not (is_absolute device)
        then (ses_error bad_device, w)
        else (let (run, after) = shell.execute w (ident_argv device type_index element_index on) in
            (ident_of run, after))

    -- The pages that `SesLocateWriter` reads, parsed.
    unfoldable pub ses_pages : Pages W
    unfolding read_page parse_configuration parse_additional_element_status
    ses_pages = record {
      configuration = λ w device.
          let (o, after) = read_page (device_of device) (codes "configuration") w in
          (parsed (λ t. (parse_configuration t).1) o, after);
      element_status = λ w device.
          let (o, after) = read_page (device_of device) (codes "additional_element_status") w in
          (parsed parse_additional_element_status o, after);
    }

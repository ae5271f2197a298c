-- ===== src/Polling/Runner.antt =====
-- What the polls of backend/ktnmgr/services/state.py ask of a SES runner, and `SesRunner` of
-- backend/ktnmgr/enclosure/ses.py as one.
use ktn_enclosure_manager.Common.{Bool}
use ktn_enclosure_manager.Common.Text.{Text}
use ktn_enclosure_manager.Sysfs.Scan.{EnclosureRef}
use ktn_enclosure_manager.Writer.Runner.{
  Shell, SesFailure, SesOutcome, done, ses_error, ses_available, read_for,
}

-- A page's standard output, or the text of a `SesError`.
pub data Page : Type 0 where
  output : Text → Page
  unread : Text → Page

pub record Runner (W : Type 0) : Type 0 where
  pub available : W → Bool
  pub read_for : EnclosureRef → Text → W → Page × W

abbrev pub page_from : (SesFailure → Text) → SesOutcome Text → Page
page_from message (done out) = output out
page_from message (ses_error e) = unread (message e)

module _ {W : Type 0} (binary : Text) (shell : Shell W) (message : SesFailure → Text) where
  unfoldable pub local_runner : Runner W
  unfolding ses_available read_for
  local_runner = record {
    available = ses_available binary shell;
    read_for = λ ref name w.
        let (o, after) = read_for binary shell ref.sg_device name w in (page_from message o, after);
  }

-- ===== src/Writer/Local.antt =====
-- `DirectLocateWriter`, `SesLocateWriter` and `build_local_locate_writer` of
-- backend/ktnmgr/enclosure/locate.py.
use ktn_enclosure_manager.Common.{
  ℕ, ℤ, pos, negsuc, Bool, not, ◌||◌, Option, none, some, [], if◌then◌else◌, ◌==◌, nat_eq, list_eq,
}
use ktn_enclosure_manager.Common.Text.{Text, codes}
use ktn_enclosure_manager.Errors.{
  Outcome, ok, raise, ◌>>=◌, locate_error, os_error, write_failed, ident_command_failed,
  unknown_method, sg_ses_unavailable,
}
use ktn_enclosure_manager.Locate.Request.{str_value, int_value, validate_request}
use ktn_enclosure_manager.Locate.Plan.{Plans, plan}
use ktn_enclosure_manager.Sysfs.Tree.{Kernel, child}
use ktn_enclosure_manager.Sysfs.Scan.{EnclosureRef, Roots, ref_of, resolve, slot_dir, read_locate}
use ktn_enclosure_manager.Sysfs.Settle.{set_locate, await_locate}
use ktn_enclosure_manager.Writer.Runner.{
  Shell, ses_available, set_ident, ses_pages, done, ses_error,
}

-- The protocol `LocateWriter`, over the state `S`: the world and the caches of the writer.
pub record LocateWriter (S : Type 0) : Type 0 where
  pub read : Text → ℤ → S → Outcome Bool × S
  pub write : Text → ℤ → Bool → S → Outcome Bool × S

abbrev pub or_empty_text : Option Text → Text
or_empty_text none = []
or_empty_text (some d) = d

-- A negative slot does not get past `validate_request`.
abbrev pub natural : ℤ → ℕ
natural (pos n) = n
natural (negsuc n) = 0

module _ {W : Type 0} (k : Kernel W) (roots : Roots) where
  -- `read` of both writers
  unfoldable pub read_slot : Text → ℤ → W → Outcome Bool
  unfolding validate_request resolve read_locate
  read_slot enclosure_id slot w = do
    request ← validate_request (str_value enclosure_id) (int_value slot)
    ref ← resolve k w roots request.0
    read_locate k w ref request.1

  -- `except OSError`
  abbrev as_write_failed : Outcome Bool → Outcome Bool
  as_write_failed (raise os_error) = raise (locate_error write_failed)
  as_write_failed o = o

  unfoldable pub direct_write : Text → ℤ → Bool → W → Outcome Bool × W
  unfolding validate_request resolve set_locate
  direct_write enclosure_id slot on w =
      elim (validate_request (str_value enclosure_id) (int_value slot)) [
        | raise e ↦ (raise e, w)
        | ok request ↦ elim (resolve k w roots request.0) [
          | raise e ↦ (raise e, w)
          | ok ref ↦ let (o, after) = set_locate k ref request.1 on w in (as_write_failed o, after)
        ]
      ]

  module _ (binary : Text) (shell : Shell W) where
    -- Under the lock: the command, and the wait for the slot's `locate`.
    unfoldable pub command : EnclosureRef → ℤ → ℕ × ℕ → Bool → W → Outcome Bool × W
    command ref slot at on w =
        let (o, commanded) = set_ident binary shell (or_empty_text ref.sg_device) at.0 at.1 on w in
        elim o [
          | ses_error e ↦ (raise (locate_error ident_command_failed), commanded)
          | done u ↦ elim (slot_dir k commanded ref slot) [
            | raise e ↦ (raise e, commanded)
            | ok dir ↦
                let (observed, after) = await_locate k (child dir (codes "locate")) on commanded in
                (ok observed, after)
          ]
        ]

    -- `write` from the plan on.
    unfoldable pub write_to : EnclosureRef → ℤ → Bool → W × Plans → Outcome Bool × (W × Plans)
    write_to ref slot on (w, caches) =
        let (o, (learnt, planned)) =
          plan (ses_pages binary shell) (ref_of ref) (natural slot) caches w in
        elim o [
          | raise e ↦ (raise e, (planned, learnt))
          | ok at ↦
              let (result, after) = command ref slot at on planned in (result, (after, learnt))
        ]

    unfoldable pub ses_write : Text → ℤ → Bool → W × Plans → Outcome Bool × (W × Plans)
    ses_write enclosure_id slot on s =
        elim (validate_request (str_value enclosure_id) (int_value slot)) [
          | raise e ↦ (raise e, s)
          | ok request ↦ elim (resolve k s.0 roots request.0) [
            | raise e ↦ (raise e, s)
            | ok ref ↦ write_to ref request.1 on s
          ]
        ]

    abbrev pub direct_writer : LocateWriter (W × Plans)
    direct_writer = record {
      read = λ id slot s. (read_slot id slot s.0, s);
      write = λ id slot on s. let (o, after) = direct_write id slot on s.0 in (o, (after, s.1));
    }

    abbrev pub ses_writer : LocateWriter (W × Plans)
    ses_writer = record { read = λ id slot s. (read_slot id slot s.0, s); write = ses_write }

    unfoldable pub build_local_locate_writer : Text → W → Outcome (LocateWriter (W × Plans))
    unfolding ses_available
    build_local_locate_writer method w =
        if not ((method == codes "auto") || ((method == codes "ses") || (method == codes "sysfs")))
        then raise (locate_error unknown_method)
        else if method == codes "sysfs"
        then ok direct_writer
        else if ses_available binary shell w
        then ok ses_writer
        else if method == codes "ses"
        then raise (locate_error sg_ses_unavailable)
        else ok direct_writer

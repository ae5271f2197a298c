-- ===== src/Writer/Written.antt =====
-- What `SesLocateWriter.write` of backend/ktnmgr/enclosure/locate.py has done when it returns.
use ktn_enclosure_manager.Common.{ℕ, ◌+◌, ◌≤◌, ℤ, Bool, ◌≡◌, ◌⊎◌, inl, inr}
use ktn_enclosure_manager.Common.Text.{Text, codes}
use ktn_enclosure_manager.Errors.{ok, Outcome-cases}
use ktn_enclosure_manager.Locate.Request.{str_value, int_value, validate_request}
use ktn_enclosure_manager.Locate.Plan.{Plans, plan}
use ktn_enclosure_manager.Locate.Planned.{IsSound, plan-IsSound}
use ktn_enclosure_manager.Sysfs.Tree.{Kernel, child}
use ktn_enclosure_manager.Sysfs.Scan.{EnclosureRef, Roots, ref_of, resolve, slot_dir, read_bool}
use ktn_enclosure_manager.Sysfs.Settle.{settle_timeout, Passes}
use ktn_enclosure_manager.Writer.Runner.{Shell, done, set_ident, ses_pages}
use ktn_enclosure_manager.Writer.Local.{write_to, ses_write, or_empty_text, natural}

module _ {W : Type 0} (k : Kernel W) (passes : Passes k) (roots : Roots) (binary : Text)
    (shell : Shell W) where
  -- The command has ended well, and the value returned is what the slot's `locate` shows at the end:
  -- the value asked for, or else two seconds are over.
  pub record IsDone (ref : EnclosureRef) (slot : ℤ) (at : ℕ × ℕ) (on observed : Bool)
      (before after : W) : Type 0 where
    pub commanded : W
    pub ended_well :
        set_ident binary shell (or_empty_text ref.sg_device) at.0 at.1 on before
        ≡ (done tt, commanded)
    pub dir : Text
    pub found : slot_dir k commanded ref slot ≡ ok dir
    pub shown : read_bool k after (child dir (codes "locate")) ≡ observed
    pub settled : (observed ≡ on) ⊎ (k.monotonic commanded + settle_timeout ≤ k.monotonic after)

module _ {W : Type 0} (k : Kernel W) (roots : Roots) (binary : Text) (shell : Shell W) where
  write_to-IsSound :
      (ref : EnclosureRef) (slot : ℤ) (on : Bool) (s : W × Plans)
      → IsSound (ses_pages binary shell) s.1
      → IsSound (ses_pages binary shell) (write_to k roots binary shell ref slot on s).1.1
  unfolding write_to
  write_to-IsSound ref slot on (w, caches) sound =
      let planning = plan (ses_pages binary shell) (ref_of ref) (natural slot) caches w in
      let kept : IsSound (ses_pages binary shell) planning.1.0 =
        plan-IsSound (ses_pages binary shell) (ref_of ref) (natural slot) caches w sound in
      elim (Outcome-cases planning.0) [
        | inl (at, p) ↦ rw (p, write_to) kept
        | inr (e, p) ↦ rw (p, write_to) kept
      ]

  -- However a write ends, the caches stay sound.
  pub ses_write-IsSound :
      (id : Text) (slot : ℤ) (on : Bool) (s : W × Plans)
      → IsSound (ses_pages binary shell) s.1
      → IsSound (ses_pages binary shell) (ses_write k roots binary shell id slot on s).1.1
  unfolding ses_write
  ses_write-IsSound id slot on s sound =
      elim (Outcome-cases (validate_request (str_value id) (int_value slot))) [
        | inr (e, v) ↦ rw (v, ses_write) sound
        | inl (valid, v) ↦ elim (Outcome-cases (resolve k s.0 roots valid.0)) [
          | inr (e, r) ↦ rw (v, r, ses_write) sound
          | inl (ref, r) ↦ rw (v, r, ses_write) (write_to-IsSound ref valid.1 on s sound)
        ]
      ]

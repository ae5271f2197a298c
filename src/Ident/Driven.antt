-- ===== src/Ident/Driven.antt =====
-- `IdentManager.identify` of backend/ktnmgr/services/ident.py with the `SesLocateWriter` of
-- backend/ktnmgr/enclosure/locate.py as its writer.
use ktn_enclosure_manager.Common.{ℕ, Bool, List, ◌≡◌}
use ktn_enclosure_manager.Common.Text.{Text}
use ktn_enclosure_manager.Errors.{ok}
use ktn_enclosure_manager.Locate.Plan.{Plans, plan}
use ktn_enclosure_manager.Locate.Planned.{IsNamed}
use ktn_enclosure_manager.Sysfs.Tree.{Kernel}
use ktn_enclosure_manager.Sysfs.Scan.{EnclosureRef, Roots, ref_of, resolve}
use ktn_enclosure_manager.Sysfs.Settle.{Passes}
use ktn_enclosure_manager.Writer.Runner.{ses_pages, Shell}
use ktn_enclosure_manager.Writer.Local.{LocateWriter, ses_writer, natural}
use ktn_enclosure_manager.Writer.Written.{IsDone}
use ktn_enclosure_manager.Ident.State.{Key, IdentRecord, values}
use ktn_enclosure_manager.Ident.Host.{Host, Sys}
use ktn_enclosure_manager.Ident.Identify.{Request}

-- `IdentManager(writer, ...)`: the host with the writer in the place of its own.
abbrev pub driven_by : {S : Type 0} → LocateWriter S → Host S → Host S
driven_by writer h = record h {
  read = λ s id slot. writer.read id slot s;
  write = λ s id slot on. writer.write id slot on s;
}

module _ {W : Type 0} (k : Kernel W) (roots : Roots) (binary : Text) (shell : Shell W) where
  abbrev pub manager_host : Host (W × Plans) → Host (W × Plans)
  manager_host h = driven_by (ses_writer k roots binary shell) h

module _ {W : Type 0} (k : Kernel W) (passes : Passes k) (roots : Roots) (binary : Text)
    (shell : Shell W) (h : Host (W × Plans)) where
  abbrev host : Host (W × Plans)
  host = manager_host k roots binary shell h

  -- One command to the element of the slot, the slot as asked for, and the records saved.
  pub record IsApplied (key : Key) (on : Bool) (before : W) (caches : Plans)
      (ended : Sys (W × Plans)) : Type 0 where
    pub ref : EnclosureRef
    pub attached : resolve k before roots key.0 ≡ ok ref
    pub at : ℕ × ℕ
    pub planned : W
    pub after : W
    pub learnt : Plans
    pub is_planned :
        plan (ses_pages binary shell) (ref_of ref) (natural key.1) caches before
        ≡ (ok at, (learnt, planned))
    pub named : IsNamed (ses_pages binary shell) ref.logical_id (natural key.1) at
    pub is_done : IsDone k passes roots binary shell ref key.1 at on on planned after
    pub saved : ended.world ≡ h.save (after, learnt) (values ended.manager.records)

  -- The state file has nothing to do with the caches of the writer.
  abbrev pub SavesApart : Type 0
  SavesApart = (w : W × Plans) (rs : List IdentRecord) → (h.save w rs).1 ≡ w.1

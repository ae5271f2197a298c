-- ===== src/Writer/Commands.antt =====
-- The commands that `SesRunner` of backend/ktnmgr/enclosure/ses.py can run.
use ktn_enclosure_manager.Common.{
  ℕ, ◌≤◌, Bool, true, false, not, if◌then◌else◌, ◌∷◌, ◌++◌, refl, sym, ◌∙◌, ap, ◌||◌, some, List,
  [], leb, ◌==◌, list_eq, nat_eq, ◌≡◌, ◌⊎◌, inl, inr, Bool-cases, Option-cases, arith,
}
use ktn_enclosure_manager.Common.Dict.{get}
use ktn_enclosure_manager.Common.Text.{Text, codes}
use ktn_enclosure_manager.Writer.Paths.{is_absolute, parent_name, path_text, decimal}
use ktn_enclosure_manager.Writer.Runner.{
  ProcessEnd, timed_out, not_executed, ended, ses_timed_out, ses_not_executed, ses_failed, done,
  Shell, SesFailure, ses_error, page_not_listed, bad_device, bad_index, read_only_pages, read_argv,
  ident_argv, page_of, ident_of, read_page, set_ident,
}

-- The process has run to its end and has returned 0.
abbrev pub ends_well : ProcessEnd → Bool
ends_well timed_out = false
ends_well not_executed = false
ends_well (ended failed out err) = not failed

abbrev pub failure_of : ProcessEnd → SesFailure
failure_of timed_out = ses_timed_out
failure_of not_executed = ses_not_executed
failure_of (ended failed out err) = ses_failed

ident_of_lem :
    (run : ProcessEnd)
    → ident_of run ≡ (if ends_well run then done tt else ses_error (failure_of run))
ident_of_lem timed_out = refl
ident_of_lem not_executed = refl
ident_of_lem (ended true out err) = refl
ident_of_lem (ended false out err) = refl

module _ (binary : Text) {W : Type 0} (shell : Shell W) where
  -- Reading a page either runs nothing, or runs one command: sg_ses opened for reading only, with the
  -- arguments of an allow-listed page and an absolute device path.
  pub read_page-runs :
      (device page : Text) (w : W)
      → ((e : SesFailure) × (read_page binary shell device page w ≡ (ses_error e, w)))
        ⊎ ((args : List Text) × (get page read_only_pages ≡ some args)
            × (is_absolute device ≡ true)
            × (read_page binary shell device page w ≡ (
              page_of (shell.execute w (read_argv binary args device)).0,
              (shell.execute w (read_argv binary args device)).1,
            )))
  unfolding read_page
  read_page-runs device page w = elim (Option-cases (get page read_only_pages)) [
    | inl e ↦ inl (page_not_listed, rw (e, read_page))
    | inr (args, e) ↦ elim (Bool-cases (is_absolute device)) [
      | inr a ↦ inl (bad_device, rw (e, a, read_page))
      | inl a ↦
          elim (Bool-cases ((parent_name device == []) || (parent_name device == codes "."))) [
            | inl p ↦ inl (bad_device, rw (e, a, p, read_page))
            | inr p ↦ inr (args, e, a, rw (e, a, p, read_page))
          ]
    ]
  ]

  ident_argv_lem :
      (device : Text) (t e : ℕ) (on : Bool)
      → ident_argv binary device t e on ≡ (
          binary
          ∷ codes "--no-time"
          ∷ (codes "--index=" ++ (decimal t ++ (codes "," ++ decimal e)))
          ∷ (if on then codes "--set=ident" else codes "--clear=ident")
          ∷ path_text device
          ∷ [])
  ident_argv_lem device t e true = refl
  ident_argv_lem device t e false = refl

  -- Setting or clearing IDENT either runs nothing, or runs one command: sg_ses without the time, with
  -- `--index=` and the type index, a comma and the element index, both at most 1023, in decimal, with
  -- `--set=ident` to light and `--clear=ident` to clear, and with the path of an absolute device; and it
  -- is an error unless the command ends well.
  pub set_ident-runs :
      (device : Text) (type_index element_index : ℕ) (on : Bool) (w : W)
      → ((e : SesFailure) × (set_ident binary shell device type_index element_index on w
            ≡ (ses_error e, w)))
        ⊎ ((type_index ≤ 1023)
            × (element_index ≤ 1023)
            × (is_absolute device ≡ true)
            × (run : ProcessEnd) × (after : W) × (shell.execute w (
                  binary
                  ∷ codes "--no-time"
                  ∷ (codes "--index="
                      ++ (decimal type_index ++ (codes "," ++ decimal element_index)))
                  ∷ (if on then codes "--set=ident" else codes "--clear=ident")
                  ∷ path_text device
                  ∷ [])
                ≡ (run, after))
            × (set_ident binary shell device type_index element_index on w
                ≡ ((if ends_well run then done tt else ses_error (failure_of run)), after)))
  unfolding set_ident
  set_ident-runs device t e on w = elim (Bool-cases (leb t 1023)) [
    | inr a ↦ inl (bad_index, rw (a, set_ident))
    | inl a ↦ elim (Bool-cases (leb e 1023)) [
      | inr b ↦ inl (bad_index, rw (a, b, set_ident))
      | inl b ↦ elim (Bool-cases (is_absolute device)) [
        | inr c ↦ inl (bad_device, rw (a, b, c, set_ident))
        | inl c ↦
            let ran = shell.execute w (ident_argv binary device t e on) in
            let set : set_ident binary shell device t e on w ≡ (ident_of ran.0, ran.1) =
              rw (a, b, c, set_ident) in
            inr (
              ground (arith, a),
              ground (arith, b),
              c,
              ran.0,
              ran.1,
              ap (shell.execute w) (sym (ident_argv_lem device t e on)),
              set ∙ ap (λ o. (o, ran.1)) (ident_of_lem ran.0),
            )
      ]
    ]
  ]

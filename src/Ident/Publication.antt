-- ===== src/Ident/Publication.antt =====
-- `describe` against the publication order of `identify`: it runs in other threads, so it can read
-- the dictionaries between any two updates.
use ktn_enclosure_manager.Common.{
  ℕ, zero, suc, ◌≤◌, ℤ, ◌≡◌, ◌≢◌, ◌↔◌, refl, sym, ap, ◌∙◌, if◌then◌else◌, none, Bool, true, false,
  some, take, arith, list_eq, nat_eq, pair_eq, int_eq, Bool-cases, inl, inr,
}
use ktn_enclosure_manager.Common.Dict.{get, get-put_self, get-pop_self}
use ktn_enclosure_manager.Common.Text.{Text, lower}
use ktn_enclosure_manager.Ident.State.{
  IdentRecord, Manager, settled, record_for, describe, describe_over, foreign, origin_app, dark,
  lit_by,
}
use ktn_enclosure_manager.Ident.Identify.{off_updates, on_updates, apply_all}

app_not_external : (r : IdentRecord) → r.origin ≡ origin_app → lit_by (some r) ≢ foreign
app_not_external r e p = ground arith

not_dark : dark ≢ foreign
not_dark p = ground arith

-- With a record of ours, when it is read, no observation is called external.
recorded :
    (m later : Manager) (id : Text) (slot : ℤ) (on : Bool) (seen : ℕ) (r : IdentRecord)
    → r.origin ≡ origin_app
    → record_for later id slot ≡ some r
    → describe_over m later id slot on seen ≢ foreign
unfolding describe_over
recorded m later id slot on seen r owned e =
    elim (Bool-cases (settled m (lower id, slot) on seen)) [
      | inl lit ↦ rw (lit, e) (app_not_external r owned)
      | inr out ↦ rw out not_dark
    ]

-- An observation no younger than a verified clear, when that is read, is dark.
superseded :
    (m later : Manager) (id : Text) (slot : ℤ) (on : Bool) (seen at : ℕ)
    → get (lower id, slot) m.last_write ≡ some (at, false)
    → seen ≤ at
    → describe_over m later id slot on seen ≡ dark
unfolding describe_over settled
superseded m later id slot on seen at e le = ground arith

-- The manager when the first `n` updates of a clear of the bay are done.
abbrev pub cleared_to : Manager → Text → ℤ → ℕ → ℕ → Manager
cleared_to m id slot at n = apply_all (take n (off_updates (lower id, slot) at)) m

cleared_stamp :
    (m : Manager) (id : Text) (slot : ℤ) (at n : ℕ)
    → get (lower id, slot) (cleared_to m id slot at (suc n)).last_write ≡ some (at, false)
unfolding apply_all off_updates
cleared_stamp m id slot at zero = get-put_self (lower id, slot) (at, false) m.last_write
cleared_stamp m id slot at (suc n) = get-put_self (lower id, slot) (at, false) m.last_write

cleared_record_kept :
    (m : Manager) (id : Text) (slot : ℤ) (at n : ℕ)
    → n ≤ 1
    → record_for (cleared_to m id slot at n) id slot ≡ record_for m id slot
unfolding apply_all off_updates record_for
cleared_record_kept m id slot at zero le = refl
cleared_record_kept m id slot at (suc zero) le = refl
cleared_record_kept m id slot at (suc (suc n)) le = absurd (omega (arith, le))

cleared_record_gone :
    (m : Manager) (id : Text) (slot : ℤ) (at n : ℕ)
    → record_for (cleared_to m id slot at (suc (suc n))) id slot ≡ none
unfolding apply_all off_updates record_for
cleared_record_gone m id slot at n = get-pop_self (lower id, slot) m.records

nothing_done : (m : Manager) (id : Text) (slot : ℤ) (at : ℕ) → cleared_to m id slot at 0 ≡ m
unfolding apply_all off_updates
nothing_done m id slot at = refl

external-straddles :
    (m : Manager) (id : Text) (slot : ℤ) (r : IdentRecord) (at i j : ℕ) (on : Bool) (seen : ℕ)
    → record_for m id slot ≡ some r
    → r.origin ≡ origin_app
    → seen ≤ at
    → describe_over (cleared_to m id slot at i) (cleared_to m id slot at j) id slot on seen
      ≡ foreign
    → (i ≡ 0) × (2 ≤ j) × (settled m (lower id, slot) on seen ≡ true)
unfolding describe_over
external-straddles m id slot r at (suc i) j on seen held owned le h = absurd (
    not_dark (
      sym (
        superseded (cleared_to m id slot at (suc i)) (cleared_to m id slot at j) id slot on seen at
          (cleared_stamp m id slot at i) le)
      ∙ h))
external-straddles m id slot r at zero zero on seen held owned le h = absurd (
    recorded (cleared_to m id slot at 0) (cleared_to m id slot at 0) id slot on seen r owned
      (cleared_record_kept m id slot at 0 (omega arith) ∙ held) h)
external-straddles m id slot r at zero (suc zero) on seen held owned le h = absurd (
    recorded (cleared_to m id slot at 0) (cleared_to m id slot at 1) id slot on seen r owned
      (cleared_record_kept m id slot at 1 (omega arith) ∙ held) h)
external-straddles m id slot r at zero (suc (suc j)) on seen held owned le h =
    elim (Bool-cases (settled m (lower id, slot) on seen)) [
      | inl lit ↦ (refl, omega arith, lit)
      | inr out ↦ absurd (
          not_dark (
            sym (
              ap
                (λ c.
                  if settled c (lower id, slot) on seen
                  then lit_by (record_for (cleared_to m id slot at (suc (suc j))) id slot)
                  else dark)
                (nothing_done m id slot at)
              ∙ rw out refl)
            ∙ h))
    ]

straddles-external :
    (m : Manager) (id : Text) (slot : ℤ) (at i j : ℕ) (on : Bool) (seen : ℕ)
    → (i ≡ 0) × (2 ≤ j) × (settled m (lower id, slot) on seen ≡ true)
    → describe_over (cleared_to m id slot at i) (cleared_to m id slot at j) id slot on seen
      ≡ foreign
unfolding describe_over
straddles-external m id slot at i zero on seen (first, last, lit) = absurd (omega (arith, last))
straddles-external m id slot at i (suc zero) on seen (first, last, lit) =
    absurd (omega (arith, last))
straddles-external m id slot at i (suc (suc j)) on seen (first, last, lit) =
    ap
      (λ c.
        if settled c (lower id, slot) on seen
        then lit_by (record_for (cleared_to m id slot at (suc (suc j))) id slot)
        else dark)
      (ap (cleared_to m id slot at) first ∙ nothing_done m id slot at)
    ∙ rw (lit, cleared_record_gone m id slot at j) refl

-- While a clear of a bay with a record of the application is being published, a concurrent `describe`
-- of an observation taken before the verified write reads the stamp when the first `i` updates are done
-- and the record when the first `j` are. It calls the bay external exactly when the whole publication
-- falls between its two reads and the observation was lit before: the order of the updates is safe for
-- every other interleaving, and not for this one.
pub off_publication_external :
    (m : Manager) (id : Text) (slot : ℤ) (r : IdentRecord) (at i j : ℕ) (on : Bool) (seen : ℕ)
    → record_for m id slot ≡ some r
    → r.origin ≡ origin_app
    → seen ≤ at
    → (describe_over (cleared_to m id slot at i) (cleared_to m id slot at j) id slot on seen
        ≡ foreign)
      ↔ ((i ≡ 0) × (2 ≤ j) × (settled m (lower id, slot) on seen ≡ true))
off_publication_external m id slot r at i j on seen held owned le = (
  external-straddles m id slot r at i j on seen held owned le,
  straddles-external m id slot at i j on seen,
)

-- The manager when the first `n` updates of a light of the bay are done.
abbrev lit_to : Manager → Text → ℤ → IdentRecord → ℕ → ℕ → Manager
lit_to m id slot r at n = apply_all (take n (on_updates (lower id, slot) r at)) m

-- While a light is being published, no observation of the bay is called external that was not so
-- before, wherever the two reads of a concurrent `describe` fall.
on_publication_never_external :
    (m : Manager) (id : Text) (slot : ℤ) (r : IdentRecord) (at i j : ℕ) (on : Bool) (seen : ℕ)
    → i ≤ j
    → r.origin ≡ origin_app
    → describe m id slot on seen ≢ foreign
    → describe_over (lit_to m id slot r at i) (lit_to m id slot r at j) id slot on seen ≢ foreign
unfolding apply_all on_updates record_for describe
on_publication_never_external m id slot r at zero zero on seen le owned before = before
on_publication_never_external m id slot r at (suc i) zero on seen le owned before =
    absurd (omega (arith, le))
on_publication_never_external m id slot r at i (suc zero) on seen le owned before =
    recorded (lit_to m id slot r at i) (lit_to m id slot r at 1) id slot on seen r owned
      (get-put_self (lower id, slot) r m.records)
on_publication_never_external m id slot r at i (suc (suc n)) on seen le owned before =
    recorded (lit_to m id slot r at i) (lit_to m id slot r at (suc (suc n))) id slot on seen r owned
      (get-put_self (lower id, slot) r m.records)

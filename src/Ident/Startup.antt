-- ===== src/Ident/Startup.antt =====
-- Which records survive the reconciliation at startup.
use ktn_enclosure_manager.Common.{
  ℕ, ℤ, ◌≡◌, refl, ap, Bool, true, false, Option, some, none, List, [], ◌∷◌, arith, ◌==◌, list_eq,
  nat_eq, pair_eq, int_eq, inl, inr, Bool-cases, ==→≡, bool_eq, subst,
}
use ktn_enclosure_manager.Common.Dict.{Dict, get, pop, get-pop, get-pop_self}
use ktn_enclosure_manager.Common.Text.{Text, codes}
use ktn_enclosure_manager.Errors.{Outcome, ok, Outcome-cases}
use ktn_enclosure_manager.Locate.Request.{int_value, str_value, validate_request}
use ktn_enclosure_manager.Ident.State.{Key, IdentRecord, Manager}
use ktn_enclosure_manager.Ident.Host.{Host, Sys}
use ktn_enclosure_manager.Ident.Identify.{
  Request, identify, publish, off_updates, on_updates, apply_all,
}
use ktn_enclosure_manager.Ident.Effects.{Ended, published, failed, identify_ends, identify_invalid}
use ktn_enclosure_manager.Ident.Timers.{
  clear_as, reconcile_record, reconcile_items, reconcile, load,
}

-- No record is new or changed.
pub record Shrinks (d d' : Dict Key IdentRecord) : Type 0 where
  pub old : (k : Key) (r : IdentRecord) → get k d' ≡ some r → get k d ≡ some r

Shrinks-refl : (d : Dict Key IdentRecord) → Shrinks d d
Shrinks-refl d = record { old = λ k r e. e }

Shrinks-trans : (a b c : Dict Key IdentRecord) → Shrinks a b → Shrinks b c → Shrinks a c
Shrinks-trans a b c f g = record { old = λ k r e. f.old k r (g.old k r e) }

Shrinks-pop : (key : Key) (d : Dict Key IdentRecord) → Shrinks d (pop key d)
Shrinks-pop key d = record { old = λ k r e. ground (arith, get-pop key k d) }

module _ {W : Type 0} (h : Host W) where
  publish_off_records :
      (key : Key) (q : Request) (t : Sys W)
      → q.on ≡ false
      → (publish h key q t).1.manager.records ≡ pop key t.manager.records
  unfolding publish off_updates on_updates apply_all
  publish_off_records key q t off = rw off refl

  Ended-Shrinks :
      (key : Key) (q : Request) (m : Manager) (res : Outcome (Option IdentRecord) × Sys W)
      → q.on ≡ false
      → Ended h key q m res
      → Shrinks m.records res.1.manager.records
  Ended-Shrinks key q m res off (published t same eq) = rw eq (
      rw (publish_off_records key q t off) (
        subst (λ n. Shrinks n.records (pop key t.manager.records)) same
          (Shrinks-pop key t.manager.records)))
  Ended-Shrinks key q m res off (failed e raised same) = rw same (Shrinks-refl m.records)

  clear-Shrinks :
      (id : Text) (slot : ℤ) (user : Text) (s : Sys W)
      → Shrinks s.manager.records (identify h id slot (clear_as user) s).1.manager.records
  clear-Shrinks id slot user s =
      elim (Outcome-cases (validate_request (str_value id) (int_value slot))) [
        | inl (key, v) ↦
            Ended-Shrinks key (clear_as user) s.manager _ refl
              (identify_ends h id slot (clear_as user) s key v)
        | inr (e, v) ↦ rw (identify_invalid h id slot (clear_as user) s v) (Shrinks-refl _)
      ]

  -- The bay was observed, and lit.
  abbrev pub seen_lit : Dict Key Bool → Key → Bool
  seen_lit observed k = elim (get k observed) [ none ↦ false | some lit ↦ lit ]

  reconcile_record-Shrinks :
      (observed : Dict Key Bool) (now : ℕ) (key : Key) (r : IdentRecord) (s : Sys W)
      → Shrinks s.manager.records (reconcile_record h observed now key r s).1.manager.records
  unfolding reconcile_record
  reconcile_record-Shrinks observed now key r s =
      let res : Outcome (Option IdentRecord) × Sys W =
        identify h r.enclosure_id r.ses_slot (clear_as (codes "system:reconcile")) s in
      let cleared : Shrinks s.manager.records res.1.manager.records =
        clear-Shrinks r.enclosure_id r.ses_slot (codes "system:reconcile") s in
      record { old = λ k x e. ground (arith, get-pop key k s.manager.records, cleared.old k x) }

  -- A bay that was not observed lit has no record once its turn has come.
  reconcile_record_dark :
      (observed : Dict Key Bool) (now : ℕ) (key : Key) (r : IdentRecord) (s : Sys W)
      → seen_lit observed key ≡ false
      → get key (reconcile_record h observed now key r s).1.manager.records ≡ none
  unfolding reconcile_record
  reconcile_record_dark observed now key r s out =
      ground (arith, get-pop_self key s.manager.records)

  reconcile_items-Shrinks :
      (observed : Dict Key Bool) (now : ℕ) (items : List (Key × IdentRecord)) (s : Sys W)
      → Shrinks s.manager.records (reconcile_items h observed now items s).1.manager.records
  unfolding reconcile_items
  reconcile_items-Shrinks observed now [] s = Shrinks-refl s.manager.records
  reconcile_items-Shrinks observed now ((key, r) ∷ items) s =
      let s' : Sys W = (reconcile_record h observed now key r s).1 in
      let one = reconcile_record-Shrinks observed now key r s in
      elim (Outcome-cases (reconcile_record h observed now key r s).0) [
        | inl (x, y) ↦
            rw (y, reconcile_items)
              (Shrinks-trans _ _ _ one (reconcile_items-Shrinks observed now items s'))
        | inr (e, n) ↦ rw (n, reconcile_items) one
      ]

  reconcile_items_lit :
      (observed : Dict Key Bool) (now : ℕ) (items : List (Key × IdentRecord)) (s : Sys W) (k : Key)
      (r r' : IdentRecord)
      → (reconcile_items h observed now items s).0 ≡ ok tt
      → get k items ≡ some r'
      → get k (reconcile_items h observed now items s).1.manager.records ≡ some r
      → seen_lit observed k ≡ true
  unfolding reconcile_items get
  reconcile_items_lit observed now [] s k r r' fine listed kept = cc
  reconcile_items_lit observed now ((key, x) ∷ items) s k r r' fine listed kept =
      let s' : Sys W = (reconcile_record h observed now key x s).1 in
      elim (Outcome-cases (reconcile_record h observed now key x s).0) [
        | inr (e, n) ↦ cc (rw (n, reconcile_items) at fine)
        | inl (u, y) ↦ elim (Bool-cases (seen_lit observed k)) [
          | inl lit ↦ lit
          | inr out ↦ elim (Bool-cases (key == k)) [
            | inr other ↦
                reconcile_items_lit observed now items s' k r r' (rw (y, reconcile_items) at fine)
                  (rw (other, get) at listed) (rw (y, reconcile_items) at kept)
            | inl same ↦
                let e : key ≡ k = ==→≡ key k same in
                cc (
                  (reconcile_items-Shrinks observed now items s').old k r
                      (rw (y, reconcile_items) at kept),
                  ap (λ (j : Key). get j s'.manager.records) e,
                  reconcile_record_dark observed now key x s (rw e out),
                )
          ]
        ]
      ]

  -- After a reconciliation that returns, every record is one that the state file had for its bay,
  -- and the bay was observed, and lit.
  pub reconcile_keeps_lit :
      (observed : Dict Key Bool) (s : Sys W) (k : Key) (r : IdentRecord)
      → (reconcile h observed s).0 ≡ ok tt
      → get k (reconcile h observed s).1.manager.records ≡ some r
      → (get k (load h s).manager.records ≡ some r) × (seen_lit observed k ≡ true)
  unfolding reconcile
  reconcile_keeps_lit observed s k r fine kept =
      let t : Sys W = load h s in
      let res : Outcome (Unit {0}) × Sys W =
        reconcile_items h observed (h.utc t.world) t.manager.records t in
      elim (Outcome-cases res.0) [
        | inr (e, n) ↦ cc (rw (n, reconcile) at fine)
        | inl (u, y) ↦
            let was : get k t.manager.records ≡ some r =
              (reconcile_items-Shrinks observed (h.utc t.world) t.manager.records t).old k r
                (rw (y, reconcile) at kept) in
            (
              was,
              reconcile_items_lit observed (h.utc t.world) t.manager.records t k r r y was
                  (rw (y, reconcile) at kept),
            )
      ]

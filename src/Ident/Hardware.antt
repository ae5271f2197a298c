-- ===== src/Ident/Hardware.antt =====
-- What the writer did in an `IdentManager.identify` of backend/ktnmgr/services/ident.py that returns,
-- and `identify` over the `SesLocateWriter` of backend/ktnmgr/enclosure/locate.py.
use ktn_enclosure_manager.Common.{
  ℤ, Bool, not, ◌&&◌, Option, ◌==◌, bool_eq, nat_eq, ==→≡, ◌≡◌, refl, ◌∙◌, ap, sym, inl, inr,
  Bool-cases,
}
use ktn_enclosure_manager.Common.Text.{Text}
use ktn_enclosure_manager.Errors.{ok, Outcome-cases}
use ktn_enclosure_manager.Locate.Request.{int_value, str_value, validate_request}
use ktn_enclosure_manager.Ident.State.{Key, IdentRecord, values}
use ktn_enclosure_manager.Ident.Host.{Host, Sys}
use ktn_enclosure_manager.Ident.Identify.{
  Request, is_offered, audit, publish, settle, attempt, locked, identify,
}

module _ {W : Type 0} (h : Host W) where
  -- The read and the write of the bay have returned, the write with the value asked for, and the
  -- records were saved after it.
  pub record HasWritten (key : Key) (on : Bool) (before : W) (ended : Sys W) : Type 0 where
    pub previous : Bool
    pub between : W
    pub read : h.read before key.0 key.1 ≡ (ok previous, between)
    pub after : W
    pub written : h.write between key.0 key.1 on ≡ (ok on, after)
    pub saved : ended.world ≡ h.save after (values ended.manager.records)

  settle-saved :
      (key : Key) (q : Request) (previous verified : Bool) (s : Sys W) (x : Option IdentRecord)
      → (settle h key q previous verified s).0 ≡ ok x
      → (verified ≡ q.on)
        × ((settle h key q previous verified s).1.world
            ≡ h.save s.world (values (settle h key q previous verified s).1.manager.records))
  unfolding settle audit publish
  settle-saved key q previous verified s x p = elim (Bool-cases (verified == q.on)) [
    | inl y ↦ (==→≡ verified q.on y, rw (y, settle) refl)
    | inr n ↦ cc (rw (n, settle) at p)
  ]

  attempt-HasWritten :
      (key : Key) (q : Request) (previous : Bool) (before between : W) (s : Sys W)
      (x : Option IdentRecord)
      → h.read before key.0 key.1 ≡ (ok previous, between)
      → s.world ≡ between
      → (attempt h key q previous s).0 ≡ ok x
      → HasWritten key q.on before (attempt h key q previous s).1
  unfolding attempt
  attempt-HasWritten key q previous before between s x r at p =
      elim (Outcome-cases (h.write s.world key.0 key.1 q.on).0) [
        | inr (e, w) ↦ cc (rw (w, attempt) at p)
        | inl (verified, w) ↦
            let (same, saved) = settle-saved key q previous verified _ x (rw (w, attempt) at p) in
            record {
              previous = previous;
              between = between;
              read = r;
              after = (h.write s.world key.0 key.1 q.on).1;
              written =
                  ap (λ v. h.write v key.0 key.1 q.on) (sym at)
                  ∙ ap (λ o. (o, (h.write s.world key.0 key.1 q.on).1)) (w ∙ ap ok same);
              saved = rw (w, attempt) saved;
            }
      ]

  locked-HasWritten :
      (key : Key) (q : Request) (s : Sys W) (x : Option IdentRecord)
      → (locked h key q s).0 ≡ ok x
      → HasWritten key q.on s.world (locked h key q s).1
  unfolding locked
  locked-HasWritten key q s x p = elim (Outcome-cases (h.read s.world key.0 key.1).0) [
    | inr (e, r) ↦ cc (rw (r, locked) at p)
    | inl (previous, r) ↦
        rw (r, locked)
          (attempt-HasWritten key q previous s.world (h.read s.world key.0 key.1).1 _ x
            (ap (λ o. (o, (h.read s.world key.0 key.1).1)) r) refl (rw (r, locked) at p))
  ]

  -- An `identify` that returns has validated the request.
  pub identify-HasWritten :
      (id : Text) (slot : ℤ) (q : Request) (s : Sys W) (x : Option IdentRecord)
      → (identify h id slot q s).0 ≡ ok x
      → (key : Key) × (validate_request (str_value id) (int_value slot) ≡ ok key)
        × HasWritten key q.on s.world (identify h id slot q s).1
  unfolding identify
  identify-HasWritten id slot q s x p =
      elim (Outcome-cases (validate_request (str_value id) (int_value slot))) [
        | inr (e, v) ↦ cc (rw (v, identify) at p)
        | inl (key, v) ↦ elim (Bool-cases (q.on && not (is_offered q.duration_seconds))) [
          | inl y ↦ cc (rw (v, y, identify) at p)
          | inr n ↦
              (key, v, rw (v, n, identify) (locked-HasWritten key q s x (rw (v, n, identify) at p)))
        ]
      ]

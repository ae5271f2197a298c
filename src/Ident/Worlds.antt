-- ===== src/Ident/Worlds.antt =====
-- What every step of `IdentManager.identify` of backend/ktnmgr/services/ident.py keeps of the world, the
-- call keeps; so it keeps the caches of a `SesLocateWriter` sound.
use ktn_enclosure_manager.Common.{
  ℤ, Bool, not, ◌&&◌, List, [], ◌∷◌, ◌==◌, bool_eq, inl, inr, Bool-cases,
}
use ktn_enclosure_manager.Common.Text.{Text}
use ktn_enclosure_manager.Errors.{Outcome-cases}
use ktn_enclosure_manager.Locate.Request.{int_value, str_value, validate_request}
use ktn_enclosure_manager.Ident.State.{Key, IdentRecord}
use ktn_enclosure_manager.Ident.Host.{Host, Sys}
use ktn_enclosure_manager.Ident.Identify.{
  Request, is_offered, audit, publish, settle, attempt, locked, identify,
}

-- The steps of the host keep `P`.
pub record Keeps {W : Type 0} (h : Host W) (P : W → Type 0) : Type 0 where
  pub read : (w : W) (id : Text) (slot : ℤ) → P w → P (h.read w id slot).1
  pub write : (w : W) (id : Text) (slot : ℤ) (on : Bool) → P w → P (h.write w id slot on).1
  pub save : (w : W) (rs : List IdentRecord) → P w → P (h.save w rs)

-- One call of `identify`.
pub record Call : Type 0 where
  pub enclosure_id : Text
  pub ses_slot : ℤ
  pub request : Request

module _ {W : Type 0} (h : Host W) where
  -- The system after the calls.
  unfoldable pub after_calls : List Call → Sys W → Sys W
  unfolding identify
  after_calls [] s = s
  after_calls (c ∷ cs) s = after_calls cs (identify h c.enclosure_id c.ses_slot c.request s).1

module _ {W : Type 0} (h : Host W) (P : W → Type 0) (keeps : Keeps h P) where
  settle_keeps :
      (key : Key) (q : Request) (previous verified : Bool) (s : Sys W)
      → P s.world
      → P (settle h key q previous verified s).1.world
  unfolding settle audit publish
  settle_keeps key q previous verified s p = elim (Bool-cases (verified == q.on)) [
    | inl y ↦ rw (y, settle) (keeps.save s.world _ p)
    | inr n ↦ rw (n, settle) p
  ]

  attempt_keeps :
      (key : Key) (q : Request) (previous : Bool) (s : Sys W)
      → P s.world
      → P (attempt h key q previous s).1.world
  unfolding attempt audit
  attempt_keeps key q previous s p = elim (Outcome-cases (h.write s.world key.0 key.1 q.on).0) [
    | inl (verified, w) ↦
        rw (w, attempt)
          (settle_keeps key q previous verified _ (keeps.write s.world key.0 key.1 q.on p))
    | inr (e, w) ↦ rw (w, attempt) (keeps.write s.world key.0 key.1 q.on p)
  ]

  locked_keeps : (key : Key) (q : Request) (s : Sys W) → P s.world → P (locked h key q s).1.world
  unfolding locked
  locked_keeps key q s p = elim (Outcome-cases (h.read s.world key.0 key.1).0) [
    | inl (previous, r) ↦
        rw (r, locked) (attempt_keeps key q previous _ (keeps.read s.world key.0 key.1 p))
    | inr (e, r) ↦ rw (r, locked) (keeps.read s.world key.0 key.1 p)
  ]

  identify_keeps :
      (id : Text) (slot : ℤ) (q : Request) (s : Sys W)
      → P s.world
      → P (identify h id slot q s).1.world
  unfolding identify
  identify_keeps id slot q s p =
      elim (Outcome-cases (validate_request (str_value id) (int_value slot))) [
        | inr (e, v) ↦ rw (v, identify) p
        | inl (key, v) ↦ elim (Bool-cases (q.on && not (is_offered q.duration_seconds))) [
          | inl y ↦ rw (v, y, identify) p
          | inr n ↦ rw (v, n, identify) (locked_keeps key q s p)
        ]
      ]

  pub after_calls_keep : (cs : List Call) (s : Sys W) → P s.world → P (after_calls h cs s).world
  unfolding after_calls
  after_calls_keep [] s p = p
  after_calls_keep (c ∷ cs) s p =
      after_calls_keep cs (identify h c.enclosure_id c.ses_slot c.request s).1
        (identify_keeps c.enclosure_id c.ses_slot c.request s p)

-- ===== src/Ident/Safety.antt =====
-- Which lights the automatic clears can touch, for a shelf whose writes move one light each.
use ktn_enclosure_manager.Common.{
  ℕ, ℤ, ◌≡◌, ◌≢◌, refl, ◌∙◌, Bool, false, some, none, List, ◌==◌, list_eq, nat_eq, pair_eq, int_eq,
  inl, inr, ◌&&◌, not, Bool-cases, ==-refl, bool_eq,
}
use ktn_enclosure_manager.Common.Dict.{Dict, get}
use ktn_enclosure_manager.Common.Text.{Text}
use ktn_enclosure_manager.Errors.{ok, raise, Outcome-cases}
use ktn_enclosure_manager.Locate.Request.{int_value, str_value, validate_request}
use ktn_enclosure_manager.Ident.State.{Key, IdentRecord, expired}
use ktn_enclosure_manager.Ident.Host.{Host, Sys}
use ktn_enclosure_manager.Ident.Identify.{
  Request, is_offered, identify, locked, attempt, settle, publish, audit,
}

-- The light of each bay, and that the writer moves the light it is asked for and no other.
pub record Shelf {W : Type 0} (h : Host W) : Type 0 where
  pub led : W → Key → Bool
  pub led-read : (w : W) (id : Text) (slot : ℤ) (k : Key) → led (h.read w id slot).1 k ≡ led w k
  pub led-write :
      (w : W) (id : Text) (slot : ℤ) (on : Bool) (k : Key)
      → (id, slot) ≢ k
      → led (h.write w id slot on).1 k ≡ led w k
  pub led-save : (w : W) (rs : List IdentRecord) (k : Key) → led (h.save w rs) k ≡ led w k

-- The request names the bay `k`.
abbrev pub targets : Key → Text → ℤ → Bool
targets k id slot = elim (validate_request (str_value id) (int_value slot)) [
  | ok key ↦ key == k
  | raise _ ↦ false
]

module _ {W : Type 0} (h : Host W) (shelf : Shelf h) where
  open shelf use {led, led-read, led-write, led-save}

  settle-led :
      (key k : Key) (q : Request) (previous verified : Bool) (s : Sys W)
      → led (settle h key q previous verified s).1.world k ≡ led s.world k
  unfolding settle audit publish
  settle-led key k q previous verified s = elim (Bool-cases (verified == q.on)) [
    | inl y ↦ rw (y, settle) (led-save s.world _ k)
    | inr n ↦ rw (n, settle) refl
  ]

  attempt-led :
      (key k : Key) (q : Request) (previous : Bool) (s : Sys W)
      → key ≢ k
      → led (attempt h key q previous s).1.world k ≡ led s.world k
  unfolding attempt audit
  attempt-led key k q previous s ne = elim (Outcome-cases (h.write s.world key.0 key.1 q.on).0) [
    | inl (v, y) ↦
        rw (y, attempt)
          (settle-led key k q previous v (record s { world = (h.write s.world key.0 key.1 q.on).1 })
            ∙ led-write s.world key.0 key.1 q.on k ne)
    | inr (e, n) ↦ rw (n, attempt) (led-write s.world key.0 key.1 q.on k ne)
  ]

  locked-led :
      (key k : Key) (q : Request) (s : Sys W)
      → key ≢ k
      → led (locked h key q s).1.world k ≡ led s.world k
  unfolding locked
  locked-led key k q s ne = elim (Outcome-cases (h.read s.world key.0 key.1).0) [
    | inl (v, y) ↦
        rw (y, locked)
          (attempt-led key k q v (record s { world = (h.read s.world key.0 key.1).1 }) ne
            ∙ led-read s.world key.0 key.1 k)
    | inr (e, n) ↦ rw (n, locked) (led-read s.world key.0 key.1 k)
  ]

  not_targeted :
      (k : Key) (id : Text) (slot : ℤ) (key : Key)
      → validate_request (str_value id) (int_value slot) ≡ ok key
      → targets k id slot ≡ false
      → key ≢ k
  not_targeted k id slot key v t e = cc (rw (v, targets) at t, e, ==-refl key)

  -- `identify` moves no light but that of the bay that it names.
  pub identify-led :
      (k : Key) (id : Text) (slot : ℤ) (q : Request) (s : Sys W)
      → targets k id slot ≡ false
      → led (identify h id slot q s).1.world k ≡ led s.world k
  unfolding identify
  identify-led k id slot q s t =
      elim (Outcome-cases (validate_request (str_value id) (int_value slot))) [
        | inr (e, v) ↦ rw (v, identify) refl
        | inl (key, v) ↦ elim (Bool-cases (q.on && not (is_offered q.duration_seconds))) [
          | inl y ↦ rw (v, identify) (rw y refl)
          | inr n ↦ rw (v, identify) (rw n (locked-led key k q s (not_targeted k id slot key v t)))
        ]
      ]

-- The startup pass may clear the bay `k` for this record: it names `k`, has expired and was
-- observed lit.
abbrev pub startup_clears : Dict Key Bool → ℕ → Key → Key × IdentRecord → Bool
startup_clears observed now k (key, r) =
    targets k r.enclosure_id r.ses_slot
    && (expired r now && elim (get key observed) [ none ↦ false | some lit ↦ lit ])

-- The timer may clear the bay `k` for this record: it names `k` and has expired.
abbrev pub timer_clears : ℕ → Key → Key × IdentRecord → Bool
timer_clears now k (key, r) = targets k r.enclosure_id r.ses_slot && expired r now

-- ===== src/Sysfs/Settle.antt =====
-- `read_locate_at` and `set_locate` of backend/ktnmgr/enclosure/sysfs.py, and the settle loop that
-- `SesLocateWriter.write` of backend/ktnmgr/enclosure/locate.py repeats. Times are in milliseconds.
-- The loop runs on fuel: the milliseconds up to the deadline, and one.
use ktn_enclosure_manager.Common.{
  ℕ, zero, suc, ◌+◌, ◌-◌, ◌≤◌, ◌<◌, ℤ, Bool, true, false, none, some, ltb, if◌then◌else◌, ◌==◌,
  bool_eq, ==→≡, ◌≡◌, refl, sym, ap, subst, ◌∙◌, ◌⊎◌, inl, inr, arith, Bool-cases, Option-cases,
}
use ktn_enclosure_manager.Common.Text.{Text, codes}
use ktn_enclosure_manager.Errors.{Outcome, ok, raise, os_error, Outcome-cases, ok-injective}
use ktn_enclosure_manager.Sysfs.Tree.{Kernel, child}
use ktn_enclosure_manager.Sysfs.Scan.{EnclosureRef, read_bool, slot_dir}

-- `DEFAULT_SETTLE_TIMEOUT` and `DEFAULT_SETTLE_POLL`
abbrev pub settle_timeout : ℕ
settle_timeout = 2000

abbrev pub settle_poll : ℕ
settle_poll = 50

module _ {W : Type 0} (k : Kernel W) where
  -- `observed is not on and time.monotonic() < deadline`
  abbrev pub waits : Bool → ℕ → Bool → W → Bool
  waits on deadline observed w = elim (observed == on) [
    | true ↦ false
    | false ↦ ltb (k.monotonic w) deadline
  ]

  unfoldable settle_from : Text → Bool → ℕ → ℕ → Bool → W → Bool × W
  unfolding read_bool
  settle_from target on deadline zero observed w = (observed, w)
  settle_from target on deadline (suc fuel) observed w = elim (waits on deadline observed w) [
    | true ↦
        let next = k.sleep w settle_poll in
        settle_from target on deadline fuel (read_bool k next target) next
    | false ↦ (observed, w)
  ]

  -- The loop, from the value read first.
  unfoldable pub settle_locate : Text → Bool → ℕ → Bool → W → Bool × W
  unfolding settle_from
  settle_locate target on deadline observed w =
      settle_from target on deadline (suc (deadline - k.monotonic w)) observed w

  -- From the deadline's being set: the first read, and the loop.
  unfoldable pub await_locate : Text → Bool → W → Bool × W
  unfolding settle_locate read_bool
  await_locate target on w =
      settle_locate target on (k.monotonic w + settle_timeout) (read_bool k w target) w

  unfoldable pub set_locate : EnclosureRef → ℤ → Bool → W → Outcome Bool × W
  unfolding slot_dir await_locate
  set_locate ref slot on w = elim (slot_dir k w ref slot) [
    | raise e ↦ (raise e, w)
    | ok dir ↦
        let target = child dir (codes "locate") in
        elim (k.write_text w target (codes (if on then "1" else "0"))) [
          | none ↦ (raise os_error, w)
          | some written ↦
              let (observed, after) = await_locate target on written in (ok observed, after)
        ]
  ]

  waits-late :
      (on : Bool) (deadline : ℕ) (observed : Bool) (w : W)
      → deadline ≤ k.monotonic w
      → waits on deadline observed w ≡ false
  waits-late on deadline observed w late = ground arith

  waits-early :
      (on : Bool) (deadline : ℕ) (observed : Bool) (w : W)
      → waits on deadline observed w ≡ true
      → k.monotonic w < deadline
  waits-early on deadline observed w go = ground arith

  stopped :
      (on : Bool) (deadline : ℕ) (observed : Bool) (w : W)
      → waits on deadline observed w ≡ false
      → (observed ≡ on) ⊎ (deadline ≤ k.monotonic w)
  stopped on deadline observed w stop = elim (Bool-cases (observed == on)) [
    | inl same ↦ inl (==→≡ observed on same)
    | inr differ ↦ inr (ground arith)
  ]

  -- A sleep lets at least its time pass.
  abbrev pub Passes : Type 0
  Passes = (w : W) (ms : ℕ) → k.monotonic w + ms ≤ k.monotonic (k.sleep w ms)

  module _ (passes : Passes) (target : Text) (on : Bool) (deadline : ℕ) where
    -- Fuel beyond the time left changes nothing.
    settle_from-enough :
        (n m : ℕ) (observed : Bool) (w : W)
        → deadline < n + k.monotonic w
        → deadline < m + k.monotonic w
        → settle_from target on deadline n observed w ≡ settle_from target on deadline m observed w
    unfolding settle_from
    settle_from-enough zero zero observed w a b = refl
    settle_from-enough zero (suc m) observed w a b =
        rw (waits-late on deadline observed w (omega (arith, a)), settle_from)
    settle_from-enough (suc n) zero observed w a b =
        rw (waits-late on deadline observed w (omega (arith, b)), settle_from)
    settle_from-enough (suc n) (suc m) observed w a b =
        elim (Bool-cases (waits on deadline observed w)) [
          | inr stop ↦ rw (stop, settle_from)
          | inl go ↦
              let later = passes w settle_poll in
              rw (
                go,
                settle_from,
                settle_from-enough n m (read_bool k (k.sleep w settle_poll) target)
                    (k.sleep w settle_poll) (omega (arith, a, later)) (omega (arith, b, later)),
              )
        ]

    -- The loop of the source: where the clock passes on, the fuel never ends it.
    settle_locate-unrolls :
        (observed : Bool) (w : W)
        → settle_locate target on deadline observed w ≡ (
            if waits on deadline observed w
            then settle_locate target on deadline
                (read_bool k (k.sleep w settle_poll) target)
                (k.sleep w settle_poll)
            else (observed, w))
    unfolding settle_locate settle_from
    settle_locate-unrolls observed w = elim (Bool-cases (waits on deadline observed w)) [
      | inr stop ↦ rw (stop, settle_from)
      | inl go ↦
          let later = passes w settle_poll in
          let early = waits-early on deadline observed w go in
          rw (
            go,
            settle_from,
            settle_from-enough (deadline - k.monotonic w)
                (suc (deadline - k.monotonic (k.sleep w settle_poll)))
                (read_bool k (k.sleep w settle_poll) target) (k.sleep w settle_poll)
                (omega (arith, later, early)) (omega (arith, later, early)),
          )
    ]

    settle_from-result :
        (n : ℕ) (observed : Bool) (w : W)
        → deadline < n + k.monotonic w
        → read_bool k w target ≡ observed
        → let result = settle_from target on deadline n observed w in
          (read_bool k result.1 target ≡ result.0)
          × ((result.0 ≡ on) ⊎ (deadline ≤ k.monotonic result.1))
    unfolding settle_from
    settle_from-result zero observed w a e = (e, inr (omega (arith, a)))
    settle_from-result (suc n) observed w a e = elim (Bool-cases (waits on deadline observed w)) [
      | inl go ↦
          let later = passes w settle_poll in
          let next = k.sleep w settle_poll in
          rw (go, settle_from)
            (settle_from-result n (read_bool k next target) next (omega (arith, a, later)) refl)
      | inr stop ↦ rw (stop, settle_from) (e, stopped on deadline observed w stop)
    ]

  -- From the first read on: the value returned is what the attribute shows at the end, and it is the
  -- value asked for unless the time is over.
  pub await_locate-result :
      Passes
      → (target : Text) (on : Bool) (w : W)
      → let result = await_locate target on w in
        (read_bool k result.1 target ≡ result.0)
        × ((result.0 ≡ on) ⊎ (k.monotonic w + settle_timeout ≤ k.monotonic result.1))
  unfolding await_locate settle_locate
  await_locate-result passes target on w =
      settle_from-result passes target on (k.monotonic w + settle_timeout)
        (suc (k.monotonic w + settle_timeout - k.monotonic w)) (read_bool k w target) w
        (omega arith) refl

  -- Where the clock passes on, a `set_locate` that returns has written the value to the attribute of
  -- the slot's directory, and returns what that attribute shows at the end: the value asked for, or
  -- else two seconds are over.
  pub set_locate-result :
      Passes
      → (ref : EnclosureRef) (slot : ℤ) (on : Bool) (w after : W) (observed : Bool)
      → set_locate ref slot on w ≡ (ok observed, after)
      → (dir : Text) × (written : W) × (slot_dir k w ref slot ≡ ok dir)
        × (k.write_text w (child dir (codes "locate")) (codes (if on then "1" else "0"))
            ≡ some written)
        × (read_bool k after (child dir (codes "locate")) ≡ observed)
        × ((observed ≡ on) ⊎ (k.monotonic written + settle_timeout ≤ k.monotonic after))
  unfolding set_locate
  set_locate-result passes ref slot on w after observed h =
      elim (Outcome-cases (slot_dir k w ref slot)) [
        | inr (e, r) ↦ cc (rw (r, set_locate) at h)
        | inl (dir, found) ↦
            let target = child dir (codes "locate") in
            elim (Option-cases (k.write_text w target (codes (if on then "1" else "0")))) [
              | inl r ↦ cc (rw (found, r, set_locate) at h)
              | inr (written, r) ↦
                  let returned = rw (found, r, set_locate) at h in
                  let (shown, ended) = await_locate-result passes target on written in
                  let same = ok-injective (ap (λ (x : Outcome Bool × W). x.0) returned) in
                  let there = ap (λ (x : Outcome Bool × W). x.1) returned in
                  (
                    dir,
                    written,
                    found,
                    r,
                    subst (λ v. read_bool k v target ≡ observed) there (shown ∙ same),
                    elim ended [
                      | inl e ↦ inl (sym same ∙ e)
                      | inr late ↦ inr (
                          subst (λ v. k.monotonic written + settle_timeout ≤ k.monotonic v) there
                            late)
                    ],
                  )
            ]
      ]

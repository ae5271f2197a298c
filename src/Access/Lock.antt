-- ===== src/Access/Lock.antt =====
-- `enclosure_access` of backend/ktnmgr/enclosure/access.py, as the steps of the threads of all
-- processes. A thread is a number. The kernel's `flock` is held for one descriptor at a time; each
-- entry that is not nested opens its own.
use ktn_enclosure_manager.Common.{
  ℕ, suc, Bool, true, false, Option, none, some, List, [], ◌∷◌, if◌then◌else◌, ◌==◌, nat_eq, ◌≡◌,
}

-- The thread that holds the flock, and of each thread its `_depth.value`, the `acquired` of its
-- outermost block, and what its blocks were given by `yield`, the innermost first.
pub record Lock : Type 0 where
  pub holder : Option ℕ
  pub depth : ℕ → ℕ
  pub acquired : ℕ → Bool
  pub given : ℕ → List Bool

abbrev pub at {ℓ} : {A : Type ℓ} → ℕ → A → (ℕ → A) → ℕ → A
at p a f q = if p == q then a else f q

abbrev pub rest_of : List Bool → List Bool
rest_of [] = []
rest_of (b ∷ bs) = bs

-- The entry of a thread inside a block: it is given True whatever the outermost block was given.
unfoldable pub enter_nested : ℕ → Lock → Lock
enter_nested p s = record s {
  depth = at p (suc (s.depth p)) s.depth;
  given = at p (true ∷ s.given p) s.given;
}

-- The end of a block inside a block.
unfoldable pub leave_nested : ℕ → ℕ → Lock → Lock
leave_nested p n s = record s { depth = at p n s.depth; given = at p (rest_of (s.given p)) s.given }

-- `flock` has succeeded.
unfoldable pub enter_acquired : ℕ → Lock → Lock
enter_acquired p s = record {
  holder = some p;
  depth = at p 1 s.depth;
  acquired = at p true s.acquired;
  given = at p (true ∷ []) s.given;
}

-- The deadline has passed.
unfoldable pub enter_degraded : ℕ → Lock → Lock
enter_degraded p s = record s {
  depth = at p 1 s.depth;
  acquired = at p false s.acquired;
  given = at p (false ∷ []) s.given;
}

-- The outermost block's end: the flock is released if it was acquired.
unfoldable pub leave_outer : ℕ → Lock → Lock
leave_outer p s = record {
  holder = if s.acquired p then none else s.holder;
  depth = at p 0 s.depth;
  acquired = at p false s.acquired;
  given = at p [] s.given;
}

-- The steps. `flock` succeeds when nobody holds it, and may fail until the deadline for any reason. A
-- lock file that cannot be opened gives False and changes nothing, so it has no step.
pub data Step : Lock → Lock → Type 0 where
  nested : {s : Lock} (p n : ℕ) → s.depth p ≡ suc n → Step s (enter_nested p s)
  locked : {s : Lock} (p : ℕ) → s.depth p ≡ 0 → s.holder ≡ none → Step s (enter_acquired p s)
  timed_out : {s : Lock} (p : ℕ) → s.depth p ≡ 0 → Step s (enter_degraded p s)
  left_nested : {s : Lock} (p n : ℕ) → s.depth p ≡ suc (suc n) → Step s (leave_nested p (suc n) s)
  left_outer : {s : Lock} (p : ℕ) → s.depth p ≡ 1 → Step s (leave_outer p s)

abbrev pub unlocked : Lock
unlocked = record { holder = none; depth = λ p. 0; acquired = λ p. false; given = λ p. [] }

pub data IsReachable : Lock → Type 0 where
  initially : IsReachable unlocked
  after : {s t : Lock} → IsReachable s → Step s t → IsReachable t

-- What the outermost block of a thread was given; nothing, and it is in no block.
abbrev pub outermost : List Bool → Option Bool
outermost [] = none
outermost (b ∷ []) = some b
outermost (b ∷ c ∷ bs) = outermost (c ∷ bs)

abbrev pub innermost : List Bool → Option Bool
innermost [] = none
innermost (b ∷ bs) = some b

-- The outermost block of the thread was given True.
abbrev pub Holds : Lock → ℕ → Type 0
Holds s p = outermost (s.given p) ≡ some true

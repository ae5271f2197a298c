-- ===== src/Auth/Limiter.antt =====
-- `RateLimiter` of backend/ktnmgr/services/auth.py. Its lock makes each call one step.
use ktn_enclosure_manager.Common.{
  ℕ, ◌+◌, Bool, true, false, none, some, List, [], ◌∷◌, ◌++◌, any, keep, length, ltb, leb,
  if◌then◌else◌, list_eq, nat_eq,
}
use ktn_enclosure_manager.Common.Dict.{Dict, get, put, pop}
use ktn_enclosure_manager.Common.Text.{Text}

-- `limit` and `window_seconds`, the window in ticks of the clock.
pub record Limits : Type 0 where
  pub limit : ℕ
  pub window : ℕ

pub record Limiter : Type 0 where
  pub hits : Dict Text (List ℕ)
  pub last_prune : ℕ

abbrev pub new_limiter : Limiter
new_limiter = record { hits = []; last_prune = 0 }

-- `now - t < self.window_seconds`
abbrev pub is_recent : Limits → ℕ → ℕ → Bool
is_recent c now t = ltb now (t + c.window)

-- `self._hits.get(key, [])`
unfoldable pub hits_of : Text → Limiter → List ℕ
unfolding get
hits_of key l = elim (get key l.hits) [ none ↦ [] | some ts ↦ ts ]

unfoldable pub prune : Limits → ℕ → Limiter → Limiter
prune c now l =
    if is_recent c now l.last_prune
    then l
    else record { last_prune = now; hits = keep (λ e. any (is_recent c now) e.1) l.hits }

-- `false` where the source raises `AuthError`.
unfoldable pub check : Limits → Text → ℕ → Limiter → Bool × Limiter
unfolding hits_of prune put
check c key now l =
    let pruned = prune c now l in
    let recent = keep (is_recent c now) (hits_of key pruned) in
    if leb c.limit (length recent)
    then (false, pruned)
    else (true, record pruned { hits = put key (recent ++ now ∷ []) pruned.hits })

unfoldable pub reset : Text → Limiter → Limiter
unfolding pop
reset key l = record l { hits = pop key l.hits }

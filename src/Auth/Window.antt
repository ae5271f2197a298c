-- ===== src/Auth/Window.antt =====
-- How many attempts the limiter lets through in one window.
use ktn_enclosure_manager.Common.{
  ℕ, ◌+◌, ◌≤◌, ◌≡◌, refl, ◌∙◌, sym, ap, true, false, not, ◌&&◌, List, [], ◌∷◌, ◌++◌, any, keep,
  length, ltb, leb, if◌then◌else◌, ◌==◌, list_eq, nat_eq, arith, Bool-cases, Option-cases, inl, inr,
  ==→≡,
}
use ktn_enclosure_manager.Common.Dict.{
  get, put, get-put, get-pop, Once, put-Once, pop-Once, keep-Once, get-keep,
}
use ktn_enclosure_manager.Common.Text.{Text}
use ktn_enclosure_manager.Auth.Limiter.{
  Limits, Limiter, new_limiter, is_recent, hits_of, prune, check, reset,
}

-- The attempts that were let through, the newest first.
abbrev pub Log : Type 0
Log = List (Text × ℕ)

-- Those of one key that lie within the window before `now`.
unfoldable pub let_through : Limits → Text → ℕ → Log → ℕ
let_through c key now [] = 0
let_through c key now ((k, t) ∷ log) =
    let rest = let_through c key now log in if k == key && is_recent c now t then 1 + rest else rest

unfoldable pub forgive : Text → Log → Log
forgive key log = keep (λ e. not (e.0 == key)) log

-- A run of the limiter: attempts at times that never go back, and resets of a key, which a
-- successful sign-in makes and after which the count of the key starts again.
pub data Run (c : Limits) : Limiter → Log → ℕ → Type 0 where
  start : Run c new_limiter [] 0
  attempt :
      {l : Limiter} {log : Log} {now : ℕ} (key : Text) (t : ℕ)
      → now ≤ t
      → Run c l log now
      → Run c (check c key t l).1 (if (check c key t l).0 then (key, t) ∷ log else log) t
  signed_in :
      {l : Limiter} {log : Log} {now : ℕ} (key : Text)
      → Run c l log now
      → Run c (reset key l) (forgive key log) now

abbrev recent : Limits → ℕ → List ℕ → ℕ
recent c now ts = length (keep (is_recent c now) ts)

record Follows (c : Limits) (l : Limiter) (log : Log) (now : ℕ) : Type 0 where
  once : Once l.hits
  counted :
      (key : Text) (later : ℕ)
      → now ≤ later
      → recent c later (hits_of key l) ≡ let_through c key later log
  bounded : (key : Text) → let_through c key now log ≤ c.limit

recent-append :
    (c : Limits) (later t : ℕ) (ts : List ℕ)
    → recent c later (ts ++ t ∷ []) ≡ recent c later ts + (if is_recent c later t then 1 else 0)
recent-append c later t [] = ground arith
recent-append c later t (x ∷ ts) = ground (arith, recent-append c later t ts)

recent-keep :
    (c : Limits) (now later : ℕ) (ts : List ℕ)
    → now ≤ later
    → recent c later (keep (is_recent c now) ts) ≡ recent c later ts
recent-keep c now later [] h = refl
recent-keep c now later (x ∷ ts) h = ground (arith, recent-keep c now later ts h)

recent_none :
    (c : Limits) (now later : ℕ) (ts : List ℕ)
    → now ≤ later
    → any (is_recent c now) ts ≡ false
    → recent c later ts ≡ 0
recent_none c now later [] h e = refl
recent_none c now later (x ∷ ts) h e = ground (arith, recent_none c now later ts h (ground arith))

let_through_mono :
    (c : Limits) (key : Text) (now later : ℕ) (log : Log)
    → now ≤ later
    → let_through c key later log ≤ let_through c key now log
unfolding let_through
let_through_mono c key now later [] h = ground arith
let_through_mono c key now later ((k, t) ∷ log) h =
    ground (arith, let_through_mono c key now later log h)

let_through_self :
    (c : Limits) (key k : Text) (t now : ℕ) (log : Log)
    → (key == k) ≡ true
    → let_through c k now ((key, t) ∷ log)
      ≡ let_through c key now log + (if is_recent c now t then 1 else 0)
unfolding let_through
let_through_self c key k t now log y = ground (arith, ==→≡ key k y)

let_through_other :
    (c : Limits) (key k : Text) (t now : ℕ) (log : Log)
    → (key == k) ≡ false
    → let_through c k now ((key, t) ∷ log) ≡ let_through c k now log
unfolding let_through
let_through_other c key k t now log n = rw n refl

let_through-forgive :
    (c : Limits) (key k : Text) (now : ℕ) (log : Log)
    → let_through c k now (forgive key log) ≡ (if key == k then 0 else let_through c k now log)
unfolding let_through forgive
let_through-forgive c key k now [] = ground arith
let_through-forgive c key k now ((j, t) ∷ log) = ground (
  arith,
  let_through-forgive c key k now log,
  (list_eq {A = ℕ}).decides j key,
  (list_eq {A = ℕ}).decides j k,
  (list_eq {A = ℕ}).decides key k,
)

prune-hits :
    (c : Limits) (key : Text) (now later : ℕ) (l : Limiter)
    → Once l.hits
    → now ≤ later
    → recent c later (hits_of key (prune c now l)) ≡ recent c later (hits_of key l)
unfolding prune hits_of
prune-hits c key now later l o h = elim (Bool-cases (is_recent c now l.last_prune)) [
  | inl y ↦ rw y refl
  | inr n ↦ elim (Option-cases (get key l.hits)) [
    | inl absent ↦
        rw n rw (get-keep key (λ e. any (is_recent c now) e.1) l.hits o, hits_of) rw
          (absent, hits_of) refl
    | inr (ts, held) ↦ elim (Bool-cases (any (is_recent c now) ts)) [
      | inl live ↦
          rw n rw (get-keep key (λ e. any (is_recent c now) e.1) l.hits o, hits_of) rw
            (held, hits_of) rw live refl
      | inr old ↦
          rw n rw (get-keep key (λ e. any (is_recent c now) e.1) l.hits o, hits_of) rw
            (held, hits_of) rw old (sym (recent_none c now later ts h old))
    ]
  ]
]

prune-Once : (c : Limits) (now : ℕ) (l : Limiter) → Once l.hits → Once (prune c now l).hits
unfolding prune
prune-Once c now l o = elim (Bool-cases (is_recent c now l.last_prune)) [
  | inl y ↦ rw y o
  | inr n ↦ rw n (keep-Once (λ e. any (is_recent c now) e.1) l.hits o)
]

hits_of-put :
    (key k : Text) (ts : List ℕ) (l : Limiter)
    → hits_of k (record l { hits = put key ts l.hits }) ≡ (if key == k then ts else hits_of k l)
unfolding hits_of
hits_of-put key k ts l = ground (arith, get-put key k ts l.hits)

hits_of-reset :
    (key k : Text) (l : Limiter) → hits_of k (reset key l) ≡ (if key == k then [] else hits_of k l)
unfolding hits_of reset
hits_of-reset key k l = ground (arith, get-pop key k l.hits)

-- The limiter sees the attempts of the log, and no others.
seen :
    (c : Limits) (key : Text) (now t : ℕ) (l : Limiter) (log : Log)
    → Follows c l log now
    → now ≤ t
    → (k : Text) (later : ℕ) → t ≤ later
    → recent c later (hits_of k (prune c t l)) ≡ let_through c k later log
seen c key now t l log f h k later g =
    prune-hits c k t later l f.once g ∙ f.counted k later (omega arith)

start-Follows : (c : Limits) → Follows c new_limiter [] 0
unfolding Once let_through hits_of get
start-Follows c = record { once = tt; counted = λ key later h. refl; bounded = λ key. omega arith }

signed_in-Follows :
    (c : Limits) (key : Text) (now : ℕ) (l : Limiter) (log : Log)
    → Follows c l log now
    → Follows c (reset key l) (forgive key log) now
unfolding reset
signed_in-Follows c key now l log f = record {
  once = pop-Once key l.hits f.once;
  counted = λ k later h.
      ap (recent c later) (hits_of-reset key k l)
      ∙ ground (arith, f.counted k later h, let_through-forgive c key k later log);
  bounded = λ k. ground (arith, f.bounded k, let_through-forgive c key k now log);
}

attempt-Follows :
    (c : Limits) (key : Text) (now t : ℕ) (l : Limiter) (log : Log)
    → now ≤ t
    → Follows c l log now
    → Follows c (check c key t l).1 (if (check c key t l).0 then (key, t) ∷ log else log) t
unfolding check
attempt-Follows c key now t l log h f =
    let pruned : Limiter = prune c t l in
    let fresh : List ℕ = keep (is_recent c t) (hits_of key pruned) in
    let known = seen c key now t l log f h in
    elim (Bool-cases (leb c.limit (length fresh))) [
      | inl full ↦ rw full (record {
        once = prune-Once c t l f.once;
        counted = known;
        bounded = λ k. ground (arith, let_through_mono c k now t log h, f.bounded k);
      })
      | inr room ↦ rw room (record {
        once = put-Once key (fresh ++ t ∷ []) pruned.hits (prune-Once c t l f.once);
        counted = λ k later g.
            ap (recent c later) (hits_of-put key k (fresh ++ t ∷ []) pruned)
            ∙ elim (Bool-cases (key == k)) [
              | inl y ↦ rw (y) (
                  recent-append c later t fresh
                  ∙ ap (λ m. m + (if is_recent c later t then 1 else 0))
                      (recent-keep c t later (hits_of key pruned) g ∙ known key later g)
                  ∙ sym (let_through_self c key k t later log y))
              | inr n ↦ rw (n) (known k later g ∙ sym (let_through_other c key k t later log n))
            ];
        bounded = λ k. elim (Bool-cases (key == k)) [
          | inl y ↦ ground (arith, known key t (omega arith), let_through_self c key k t t log y)
          | inr n ↦ ground (
            arith,
            let_through_other c key k t t log n,
            let_through_mono c k now t log h,
            f.bounded k,
          )
        ];
      })
    ]

Run-Follows :
    (c : Limits) (l : Limiter) (log : Log) (now : ℕ) → Run c l log now → Follows c l log now
Run-Follows c _ _ _ start = start-Follows c
Run-Follows c _ _ _ (attempt key t h r) = attempt-Follows c key _ t _ _ h (Run-Follows c _ _ _ r)
Run-Follows c _ _ _ (signed_in key r) = signed_in-Follows c key _ _ _ (Run-Follows c _ _ _ r)

-- After a run whose clock never goes back, at most `limit` of the attempts of a key that were let
-- through since its last successful sign-in lie in the window before the present time, and before
-- any later time.
pub attempts_limited :
    (c : Limits) (l : Limiter) (log : Log) (now later : ℕ) (key : Text)
    → Run c l log now
    → now ≤ later
    → let_through c key later log ≤ c.limit
attempts_limited c l log now later key r h =
    ground (arith, (Run-Follows c l log now r).bounded key, let_through_mono c key now later log h)

-- After a run whose clock never goes back, an attempt is refused exactly when `limit` attempts of
-- its own key, or more, have been let through in the window since the key's last successful
-- sign-in: attempts of other keys, attempts that were refused and the pruning make no difference.
pub check_exact :
    (c : Limits) (l : Limiter) (log : Log) (now t : ℕ) (key : Text)
    → Run c l log now
    → now ≤ t
    → (check c key t l).0 ≡ ltb (let_through c key t log) c.limit
unfolding check
check_exact c l log now t key r h =
    ground (arith, seen c key now t l log (Run-Follows c l log now r) h key t (omega arith))

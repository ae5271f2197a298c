-- ===== src/Tls/History.antt =====
-- What the checks of backend/ktnmgr/services/tls_watch.py have seen when one of them restarts the app.
use ktn_enclosure_manager.Common.{
  ℕ, ◌+◌, ◌≤◌, true, false, none, some, List, [], ◌∷◌, ◌++◌, ltb, ◌==◌, ==→≡, nat_eq, list_eq, ◌≡◌,
  ◌⊎◌, refl, sym, ◌∙◌, ap, subst, inl, inr, Bool-cases, Option-cases, arith,
}
use mathlib.Core.List.{append_assoc, append-nil}
use ktn_enclosure_manager.Common.Text.{Text}
use ktn_enclosure_manager.Tls.Watcher.{
  Files, TlsWatcher, enabled, refresh_expiry, unreadable, await_restart, compare_copies,
  check_certificate, check_all,
}
use ktn_enclosure_manager.Tls.Restart.{refresh_expiry-Alike, restarts-IsDue}

module _ {W : Type 0} (f : Files W) where
  -- At the moment both files can be read, and the mounted one is a certificate with the hash, other than
  -- the served one.
  pub record IsRenewed (hash : Text) (w : W) : Type 0 where
    pub source : Text
    pub served : Text
    pub source_read : f.source w ≡ some source
    pub served_read : f.served w ≡ some served
    pub differ : (f.sha256 source == f.sha256 served) ≡ false
    pub usable : f.parses_as_certificate source ≡ true
    pub hashed : f.sha256 source ≡ hash

  abbrev pub AllRenewed : Text → List W → Type 0
  AllRenewed hash [] = Unit
  AllRenewed hash (w ∷ ws) = IsRenewed hash w × AllRenewed hash ws

  AllRenewed-snoc :
      (hash : Text) (ws : List W) (w : W)
      → AllRenewed hash ws
      → IsRenewed hash w
      → AllRenewed hash (ws ++ w ∷ [])
  AllRenewed-snoc hash [] w all last = (last, tt)
  AllRenewed-snoc hash (v ∷ ws) w (one, all) last = (one, AllRenewed-snoc hash ws w all last)

  -- The mounted certificate has been the same, and renewed, at every check of the list from the time
  -- `first` on.
  pub record StoodSince (past : List W) (hash : Text) (first : ℕ) : Type 0 where
    pub before : List W
    pub begun : W
    pub since : List W
    pub split : past ≡ before ++ begun ∷ since
    pub at : f.clock begun ≡ first
    pub renewed : IsRenewed hash begun
    pub stood : AllRenewed hash since

  await-changed :
      (hash : Text) (t : TlsWatcher) (now : ℕ) (h : Text) (first : ℕ)
      → (await_restart f hash t now).watcher.changed ≡ some (h, first)
      → (hash ≡ h) × ((now ≡ first) ⊎ (t.changed ≡ some (h, first)))
  unfolding await_restart
  await-changed hash t now h first c = elim (Option-cases (t.changed)) [
    | inl e ↦
        let p : some (hash, now) ≡ some (h, first) = rw (e, await_restart) at c in
        (cc p, inl (cc p))
    | inr (seen, e) ↦ elim (Bool-cases (seen.0 == hash)) [
      | inr a ↦
          let p : some (hash, now) ≡ some (h, first) = rw (e, a, await_restart) at c in
          (cc p, inl (cc p))
      | inl a ↦
          let kept : (await_restart f hash t now).watcher.changed ≡ t.changed =
            elim (Bool-cases (ltb now (t.settle + seen.1))) [
              | inl b ↦ rw (e, a, b, await_restart) e
              | inr b ↦ elim (Bool-cases t.restarted) [
                | inl r ↦ rw (e, a, b, r, await_restart) e
                | inr r ↦ rw (e, a, b, r, await_restart) e
              ]
            ] in
          let p : some seen ≡ some (h, first) = sym e ∙ (sym kept ∙ c) in
          (sym (==→≡ seen.0 hash a) ∙ cc p, inr (sym kept ∙ c))
    ]
  ]

  check-changed :
      (t : TlsWatcher) (w : W) (h : Text) (first : ℕ)
      → (check_certificate f t w).watcher.changed ≡ some (h, first)
      → IsRenewed h w × ((f.clock w ≡ first) ⊎ (t.changed ≡ some (h, first)))
  unfolding check_certificate compare_copies unreadable
  check-changed t w h first c = elim (Option-cases (f.source w)) [
    | inl e ↦ absurd (cc (rw (e, check_certificate) at c))
    | inr (source, e) ↦ elim (Option-cases (f.served w)) [
      | inl g ↦ absurd (cc (rw (e, g, check_certificate) at c))
      | inr (served, g) ↦ elim (Bool-cases (f.sha256 source == f.sha256 served)) [
        | inl a ↦ absurd (cc (rw (e, g, a, check_certificate, compare_copies) at c))
        | inr a ↦ elim (Bool-cases (f.parses_as_certificate source)) [
          | inr b ↦ absurd (cc (rw (e, g, a, b, check_certificate, compare_copies) at c))
          | inl b ↦
              let (same, when) =
                await-changed (f.sha256 source) (enabled (refresh_expiry f t w)) (f.clock w) h first
                  (rw (e, g, a, b, check_certificate, compare_copies) at c) in
              (
                record {
                  source = source;
                  served = served;
                  source_read = e;
                  served_read = g;
                  differ = a;
                  usable = b;
                  hashed = same;
                },
                elim when [
                  | inl now ↦ inl now
                  | inr before ↦ inr (sym (refresh_expiry-Alike f t w).changed ∙ before)
                ],
              )
        ]
      ]
    ]
  ]

  await-settle :
      (hash : Text) (t : TlsWatcher) (now : ℕ)
      → (await_restart f hash t now).watcher.settle ≡ t.settle
  unfolding await_restart
  await-settle hash t now = ground arith

  check-settle : (t : TlsWatcher) (w : W) → (check_certificate f t w).watcher.settle ≡ t.settle
  unfolding check_certificate compare_copies unreadable
  check-settle t w =
      let same = (refresh_expiry-Alike f t w).settle in
      elim (Option-cases (f.source w)) [
        | inl e ↦ rw (e, check_certificate) same
        | inr (source, e) ↦ elim (Option-cases (f.served w)) [
          | inl g ↦ rw (e, g, check_certificate) same
          | inr (served, g) ↦ elim (Bool-cases (f.sha256 source == f.sha256 served)) [
            | inl a ↦ rw (e, g, a, check_certificate, compare_copies) same
            | inr a ↦ elim (Bool-cases (f.parses_as_certificate source)) [
              | inr b ↦ rw (e, g, a, b, check_certificate, compare_copies) same
              | inl b ↦
                  rw (e, g, a, b, check_certificate, compare_copies)
                    (await-settle (f.sha256 source) (enabled (refresh_expiry f t w)) (f.clock w)
                      ∙ same)
            ]
          ]
        ]
      ]

  check_all-settle : (t : TlsWatcher) (ws : List W) → (check_all f t ws).1.settle ≡ t.settle
  unfolding check_all
  check_all-settle t [] = refl
  check_all-settle t (w ∷ ws) =
      check_all-settle (check_certificate f t w).watcher ws ∙ check-settle t w

  -- What the watcher has noted has stood since.
  abbrev Remembers : List W → TlsWatcher → Type 0
  Remembers past t = (h : Text) (first : ℕ) → t.changed ≡ some (h, first) → StoodSince past h first

  check-Remembers :
      (past : List W) (t : TlsWatcher) (w : W)
      → Remembers past t
      → Remembers (past ++ w ∷ []) (check_certificate f t w).watcher
  check-Remembers past t w known h first c =
      let (renewed, when) = check-changed t w h first c in
      elim when [
        | inl now ↦ record {
          before = past;
          begun = w;
          since = [];
          split = refl;
          at = now;
          renewed = renewed;
          stood = tt;
        }
        | inr earlier ↦
            let s = known h first earlier in
            record {
              before = s.before;
              begun = s.begun;
              since = s.since ++ w ∷ [];
              split =
                  ap (λ l. l ++ w ∷ []) s.split
                  ∙ append_assoc s.before (s.begun ∷ s.since) (w ∷ []);
              at = s.at;
              renewed = s.renewed;
              stood = AllRenewed-snoc h s.since w s.stood renewed;
            }
      ]

  check_all-Remembers :
      (past : List W) (t : TlsWatcher) (ws : List W)
      → Remembers past t
      → Remembers (past ++ ws) (check_all f t ws).1
  unfolding check_all
  check_all-Remembers past t [] known = subst (λ l. Remembers l t) (sym (append-nil past)) known
  check_all-Remembers past t (w ∷ ws) known =
      subst (λ l. Remembers l (check_all f (check_certificate f t w).watcher ws).1)
        (append_assoc past (w ∷ []) ws)
        (check_all-Remembers (past ++ w ∷ []) (check_certificate f t w).watcher ws
          (check-Remembers past t w known))

  -- A watcher that begins with no change noted restarts the app at a check only if the mounted
  -- certificate has been the same at all checks for the time of settling: at the check and at each one
  -- back to a check at least that much earlier, both files could be read, and the mounted one parsed, was
  -- not the served one and had the same hash. A certificate that was taken back, torn or unreadable at a
  -- check in between begins anew.
  pub restart_stood :
      (t : TlsWatcher) (ws : List W) (w : W)
      → t.changed ≡ none
      → (check_certificate f (check_all f t ws).1 w).restarts ≡ true
      → (hash : Text) × (first : ℕ) × IsRenewed hash w
        × StoodSince ws hash first
        × (t.settle + first ≤ f.clock w)
  restart_stood t ws w fresh h =
      let due = restarts-IsDue f (check_all f t ws).1 w h in
      (
        f.sha256 due.source,
        due.first,
        record {
          source = due.source;
          served = due.served;
          source_read = due.source_read;
          served_read = due.served_read;
          differ = due.differ;
          usable = due.usable;
          hashed = refl;
        },
        check_all-Remembers [] t ws (λ hash first c. absurd (cc (fresh, c))) (f.sha256 due.source)
            due.first due.seen,
        omega (arith, due.settled, check_all-settle t ws),
      )

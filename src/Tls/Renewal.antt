-- ===== src/Tls/Renewal.antt =====
-- A renewed certificate restarts the app of backend/ktnmgr/services/tls_watch.py once.
use ktn_enclosure_manager.Common.{
  ℕ, ◌+◌, ◌≤◌, Bool, true, false, ◌||◌, or_false, some, List, [], ◌∷◌, ltb, if◌then◌else◌, ◌==◌,
  ==→≡, nat_eq, list_eq, option_eq, int_eq, ◌≡◌, sym, ◌∙◌, ap, inl, inr, Bool-cases, Option-cases,
  arith,
}
use ktn_enclosure_manager.Common.Text.{Text}
use ktn_enclosure_manager.Tls.Watcher.{
  Files, TlsWatcher, enabled, refresh_expiry, unreadable, await_restart, compare_copies,
  check_certificate, check_all,
}
use ktn_enclosure_manager.Tls.Restart.{refresh_expiry-Alike, restarts-IsDue, due_restarts}

-- How many of the checks restart.
unfoldable pub count_true : List Bool → ℕ
count_true [] = 0
count_true (b ∷ bs) = (if b then 1 else 0) + count_true bs

none_left : (restarted : Bool) → 0 ≤ (if restarted then 0 else 1)
none_left restarted = omega arith

left_after :
    (restarted now after : Bool) (n : ℕ)
    → after ≡ restarted || now
    → (now ≡ true → restarted ≡ false)
    → n ≤ (if after then 0 else 1)
    → (if now then 1 else 0) + n ≤ (if restarted then 0 else 1)
left_after restarted now after n e fresh h = ground arith

at_most_one : (restarted : Bool) {n : ℕ} → n ≤ (if restarted then 0 else 1) → n ≤ 1
at_most_one true h = omega (arith, h)
at_most_one false h = h

only_once :
    (now : Bool) (n : ℕ)
    → now ≡ true
    → (if now then 1 else 0) + n ≤ 1
    → (if now then 1 else 0) + n ≡ 1
only_once now n e h = ground arith

neither : (a b : Bool) → a ≡ false → b ≡ false → a || b ≡ false
neither a b e h = ground arith

module _ {W : Type 0} (f : Files W) where
  -- The flag is set by the check that restarts, and never cleared.
  await_restart-restarted :
      (hash : Text) (t : TlsWatcher) (now : ℕ)
      → (await_restart f hash t now).watcher.restarted
        ≡ t.restarted || (await_restart f hash t now).restarts
  unfolding await_restart
  await_restart-restarted hash t now = elim (Option-cases (t.changed)) [
    | inl e ↦ rw (e, await_restart) (sym (or_false t.restarted))
    | inr (seen, e) ↦ elim (Bool-cases (seen.0 == hash)) [
      | inr a ↦ rw (e, a, await_restart) (sym (or_false t.restarted))
      | inl a ↦ elim (Bool-cases (ltb now (t.settle + seen.1))) [
        | inl b ↦ rw (e, a, b, await_restart) (sym (or_false t.restarted))
        | inr b ↦ elim (Bool-cases t.restarted) [
          | inl c ↦ rw (e, a, b, c, await_restart)
          | inr c ↦ rw (e, a, b, c, await_restart)
        ]
      ]
    ]
  ]

  check_certificate-restarted :
      (t : TlsWatcher) (w : W)
      → (check_certificate f t w).watcher.restarted
        ≡ t.restarted || (check_certificate f t w).restarts
  unfolding check_certificate compare_copies unreadable
  check_certificate-restarted t w =
      let same = (refresh_expiry-Alike f t w).restarted in
      elim (Option-cases (f.source w)) [
        | inl e ↦ rw (e, check_certificate) (same ∙ sym (or_false t.restarted))
        | inr (source, e) ↦ elim (Option-cases (f.served w)) [
          | inl g ↦ rw (e, g, check_certificate) (same ∙ sym (or_false t.restarted))
          | inr (served, g) ↦ elim (Bool-cases (f.sha256 source == f.sha256 served)) [
            | inl a ↦
                rw (e, g, a, check_certificate, compare_copies) (same ∙ sym (or_false t.restarted))
            | inr a ↦ elim (Bool-cases (f.parses_as_certificate source)) [
              | inr b ↦
                  rw (e, g, a, b, check_certificate, compare_copies)
                    (same ∙ sym (or_false t.restarted))
              | inl b ↦
                  rw (e, g, a, b, check_certificate, compare_copies)
                    (await_restart-restarted (f.sha256 source) (enabled (refresh_expiry f t w))
                        (f.clock w)
                      ∙ ap
                          (λ x.
                            x
                            || (await_restart f (f.sha256 source) (enabled (refresh_expiry f t w))
                                (f.clock w)).restarts)
                          same)
            ]
          ]
        ]
      ]

  -- One restart at most is left to a watcher.
  restarts_left :
      (t : TlsWatcher) (ws : List W)
      → count_true (check_all f t ws).0 ≤ (if t.restarted then 0 else 1)
  unfolding check_all count_true
  restarts_left t [] = none_left t.restarted
  restarts_left t (w ∷ ws) =
      left_after t.restarted (check_certificate f t w).restarts
        (check_certificate f t w).watcher.restarted
        (count_true (check_all f (check_certificate f t w).watcher ws).0)
        (check_certificate-restarted t w) (λ r. (restarts-IsDue f t w r).fresh)
        (restarts_left (check_certificate f t w).watcher ws)

  -- However many checks a watcher makes, it restarts the app at most once.
  pub restarts_once : (t : TlsWatcher) (ws : List W) → count_true (check_all f t ws).0 ≤ 1
  restarts_once t ws = at_most_one t.restarted (restarts_left t ws)

  -- A check that does not restart over a usable changed certificate has noted it, not later than now.
  await_restart-noted :
      (hash : Text) (t : TlsWatcher) (now : ℕ)
      → t.restarted ≡ false
      → ((other : Text) (first : ℕ) → t.changed ≡ some (other, first) → first ≤ now)
      → (await_restart f hash t now).restarts ≡ false
      → (first : ℕ) × ((await_restart f hash t now).watcher.changed ≡ some (hash, first))
        × (first ≤ now)
        × ((await_restart f hash t now).watcher.settle ≡ t.settle)
  unfolding await_restart
  await_restart-noted hash t now c past h = elim (Option-cases (t.changed)) [
    | inl e ↦ (now, rw (e, await_restart), omega arith, rw (e, await_restart))
    | inr (seen, e) ↦ elim (Bool-cases (seen.0 == hash)) [
      | inr a ↦ (now, rw (e, a, await_restart), omega arith, rw (e, a, await_restart))
      | inl a ↦ elim (Bool-cases (ltb now (t.settle + seen.1))) [
        | inl b ↦ (
          seen.1,
          rw (e, a, b, await_restart) (e ∙ ap (λ x. some (x, seen.1)) (==→≡ seen.0 hash a)),
          past seen.0 seen.1 e,
          rw (e, a, b, await_restart),
        )
        | inr b ↦ cc (rw (e, a, b, c, await_restart) at h)
      ]
    ]
  ]

  check_certificate-noted :
      (t : TlsWatcher) (w : W) (source served : Text)
      → f.source w ≡ some source
      → f.served w ≡ some served
      → (f.sha256 source == f.sha256 served) ≡ false
      → f.parses_as_certificate source ≡ true
      → t.restarted ≡ false
      → ((other : Text) (first : ℕ) → t.changed ≡ some (other, first) → first ≤ f.clock w)
      → (check_certificate f t w).restarts ≡ false
      → (first : ℕ) × ((check_certificate f t w).watcher.changed ≡ some (f.sha256 source, first))
        × (first ≤ f.clock w)
        × ((check_certificate f t w).watcher.settle ≡ t.settle)
  unfolding check_certificate compare_copies
  check_certificate-noted t w source served e g a b c past h =
      let alike = refresh_expiry-Alike f t w in
      let (first, noted, before, same) =
        await_restart-noted (f.sha256 source) (enabled (refresh_expiry f t w)) (f.clock w)
          (alike.restarted ∙ c) (λ other first k. past other first (sym alike.changed ∙ k))
          (rw (e, g, a, b, check_certificate, compare_copies) at h) in
      (
        first,
        rw (e, g, a, b, check_certificate, compare_copies) noted,
        before,
        rw (e, g, a, b, check_certificate, compare_copies) (same ∙ alike.settle),
      )

  -- A renewal is picked up: where the mounted certificate parses and is not the served one, at one check
  -- and at another one at least the settle time later, and no clock reading of the watcher lies ahead,
  -- exactly one of the two checks restarts the app, if none has before.
  pub renewal_restarts :
      (t : TlsWatcher) (w v : W) (source served : Text)
      → f.source w ≡ some source
      → f.served w ≡ some served
      → f.source v ≡ some source
      → f.served v ≡ some served
      → (f.sha256 source == f.sha256 served) ≡ false
      → f.parses_as_certificate source ≡ true
      → t.restarted ≡ false
      → ((other : Text) (first : ℕ) → t.changed ≡ some (other, first) → first ≤ f.clock w)
      → f.clock w + t.settle ≤ f.clock v
      → count_true (check_all f t (w ∷ v ∷ [])).0 ≡ 1
  unfolding check_all count_true
  renewal_restarts t w v source served e g e' g' a b c past later =
      let once = restarts_once t (w ∷ v ∷ []) in
      elim (Bool-cases (check_certificate f t w).restarts) [
        | inl r ↦
            only_once (check_certificate f t w).restarts
              (count_true (check_all f (check_certificate f t w).watcher (v ∷ [])).0) r once
        | inr r ↦
            let (first, noted, before, same) =
              check_certificate-noted t w source served e g a b c past r in
            let due = due_restarts f (check_certificate f t w).watcher v (record {
              source = source;
              served = served;
              first = first;
              source_read = e';
              served_read = g';
              differ = a;
              usable = b;
              seen = noted;
              settled = omega (arith, before, later, same);
              fresh =
                  check_certificate-restarted t w
                  ∙ neither t.restarted (check_certificate f t w).restarts c r;
            }) in
            rw (r, due)
      ]

-- ===== src/Tls/Restart.antt =====
-- When the watcher of backend/ktnmgr/services/tls_watch.py restarts the app.
use ktn_enclosure_manager.Common.{
  ℕ, ◌+◌, ◌≤◌, true, false, some, ltb, ◌==◌, ==→≡, ==-refl, nat_eq, list_eq, option_eq, int_eq, ◌≡◌,
  refl, sym, ◌∙◌, ap, ◌↔◌, inl, inr, Bool-cases, Option-cases, arith,
}
use ktn_enclosure_manager.Common.Text.{Text}
use ktn_enclosure_manager.Tls.Watcher.{
  Files, TlsWatcher, enabled, refresh_expiry, unreadable, await_restart, compare_copies,
  check_certificate, days_left, is_far,
}

module _ {W : Type 0} (f : Files W) where
  -- A certificate that is not the served one, that parses, and that has been the same for the time
  -- of settling, with no restart before.
  pub record IsDue (t : TlsWatcher) (w : W) : Type 0 where
    pub source : Text
    pub served : Text
    pub first : ℕ
    pub source_read : f.source w ≡ some source
    pub served_read : f.served w ≡ some served
    pub differ : (f.sha256 source == f.sha256 served) ≡ false
    pub usable : f.parses_as_certificate source ≡ true
    pub seen : t.changed ≡ some (f.sha256 source, first)
    pub settled : t.settle + first ≤ f.clock w
    pub fresh : t.restarted ≡ false

  -- Reading the expiry changes nothing that a restart depends on.
  pub record Alike (t u : TlsWatcher) : Type 0 where
    pub changed : t.changed ≡ u.changed
    pub settle : t.settle ≡ u.settle
    pub restarted : t.restarted ≡ u.restarted

  pub refresh_expiry-Alike : (t : TlsWatcher) (w : W) → Alike (refresh_expiry f t w) t
  unfolding refresh_expiry
  refresh_expiry-Alike t w =
      let seen = record t { expires = f.not_after w } in
      elim (Option-cases (days_left seen (f.clock w))) [
        | inl e ↦
            rw (e, refresh_expiry) (record { changed = refl; settle = refl; restarted = refl })
        | inr (days, e) ↦ elim (Bool-cases (is_far days)) [
          | inl a ↦
              rw (e, a, refresh_expiry) (record { changed = refl; settle = refl; restarted = refl })
          | inr a ↦ elim (Bool-cases (some days == seen.warned_days)) [
            | inl b ↦
                rw (e, a, b, refresh_expiry)
                  (record { changed = refl; settle = refl; restarted = refl })
            | inr b ↦
                rw (e, a, b, refresh_expiry)
                  (record { changed = refl; settle = refl; restarted = refl })
          ]
        ]
      ]

  await_restart-due :
      (hash : Text) (t : TlsWatcher) (now : ℕ)
      → (await_restart f hash t now).restarts ≡ true
      → (first : ℕ) × (t.changed ≡ some (hash, first))
        × (t.settle + first ≤ now)
        × (t.restarted ≡ false)
  unfolding await_restart
  await_restart-due hash t now h = elim (Option-cases (t.changed)) [
    | inl e ↦ cc (rw (e, await_restart) at h)
    | inr (seen, e) ↦ elim (Bool-cases (seen.0 == hash)) [
      | inr a ↦ cc (rw (e, a, await_restart) at h)
      | inl a ↦ elim (Bool-cases (ltb now (t.settle + seen.1))) [
        | inl b ↦ cc (rw (e, a, b, await_restart) at h)
        | inr b ↦ elim (Bool-cases t.restarted) [
          | inl c ↦ cc (rw (e, a, b, c, await_restart) at h)
          | inr c ↦
              (seen.1, e ∙ ap (λ x. some (x, seen.1)) (==→≡ seen.0 hash a), ground (arith, b), c)
        ]
      ]
    ]
  ]

  due-await_restart :
      (hash : Text) (t : TlsWatcher) (now first : ℕ)
      → t.changed ≡ some (hash, first)
      → t.settle + first ≤ now
      → t.restarted ≡ false
      → (await_restart f hash t now).restarts ≡ true
  unfolding await_restart
  due-await_restart hash t now first e b c =
      let late : ltb now (t.settle + first) ≡ false = ground (arith, b) in
      rw (e, ==-refl hash, late, c, await_restart)

  pub restarts-IsDue :
      (t : TlsWatcher) (w : W) → (check_certificate f t w).restarts ≡ true → IsDue t w
  unfolding check_certificate compare_copies unreadable
  restarts-IsDue t w h = elim (Option-cases (f.source w)) [
    | inl e ↦ cc (rw (e, check_certificate) at h)
    | inr (source, e) ↦ elim (Option-cases (f.served w)) [
      | inl g ↦ cc (rw (e, g, check_certificate) at h)
      | inr (served, g) ↦ elim (Bool-cases (f.sha256 source == f.sha256 served)) [
        | inl a ↦ cc (rw (e, g, a, check_certificate, compare_copies) at h)
        | inr a ↦ elim (Bool-cases (f.parses_as_certificate source)) [
          | inr b ↦ cc (rw (e, g, a, b, check_certificate, compare_copies) at h)
          | inl b ↦
              let alike = refresh_expiry-Alike t w in
              let (first, seen, settled, fresh) =
                await_restart-due (f.sha256 source) (enabled (refresh_expiry f t w)) (f.clock w)
                  (rw (e, g, a, b, check_certificate, compare_copies) at h) in
              record {
                source = source;
                served = served;
                first = first;
                source_read = e;
                served_read = g;
                differ = a;
                usable = b;
                seen = sym alike.changed ∙ seen;
                settled = omega (arith, settled, alike.settle);
                fresh = sym alike.restarted ∙ fresh;
              }
        ]
      ]
    ]
  ]

  pub due_restarts :
      (t : TlsWatcher) (w : W) → IsDue t w → (check_certificate f t w).restarts ≡ true
  unfolding check_certificate compare_copies
  due_restarts t w due =
      let alike = refresh_expiry-Alike t w in
      rw
        (
          due.source_read, due.served_read, due.differ, due.usable, check_certificate,
          compare_copies,
        )
        (due-await_restart (f.sha256 due.source) (enabled (refresh_expiry f t w)) (f.clock w)
          due.first (alike.changed ∙ due.seen) (omega (arith, due.settled, alike.settle))
          (alike.restarted ∙ due.fresh))

  -- A check restarts the app exactly when a certificate is due: one that is not the served one, that
  -- parses, and that has been the same for the time of settling, with no restart before. A file that
  -- cannot be read or parsed, and a rewrite of the same bytes, never restart it.
  pub check_certificate-IsDue :
      (t : TlsWatcher) (w : W) → ((check_certificate f t w).restarts ≡ true) ↔ IsDue t w
  check_certificate-IsDue t w = (restarts-IsDue t w, due_restarts t w)

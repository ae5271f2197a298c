-- ===== src/Auth/Sessions.antt =====
-- What ends a session, and what leaves it alone.
use ktn_enclosure_manager.Common.{
  ℤ, pos, negsuc, suc_ℤ, zero, suc, ◌≡◌, ◌≢◌, refl, sym, ap, ◌∙◌, true, false, Option, none, some,
  length, ltb, if◌then◌else◌, ◌==◌, ==→≡, list_eq, nat_eq, int_eq, arith, Bool-cases, Option-cases,
  inl, inr,
}
use ktn_enclosure_manager.Common.Dict.{Dict, get, put, get-put_self, get-put_ne}
use ktn_enclosure_manager.Common.Text.{Text}
use ktn_enclosure_manager.Errors.{
  Exception, ok, raise, Outcome-cases, is_ok, other_exception, auth_error, no_such_account,
}
use ktn_enclosure_manager.Auth.Accounts.{
  Epoch, missing, number, junk, Account, payload, Crypto, Store, read_users, write_users, used_salt,
  epoch_of, verify, bump, rehash, change_password, revoke_sessions, same_epoch, read_payload,
}

-- The account of a name, none also if the file cannot be read.
account_of : Text → Store → Option Account
account_of u s = elim (read_users s) [ raise _ ↦ none | ok users ↦ get u users ]

write_users-account_of :
    (users : Dict Text Account) (s : Store) (v : Text)
    → is_ok (write_users users s).0 ≡ true
    → account_of v (write_users users s).1 ≡ get v users
unfolding write_users account_of read_users
write_users-account_of users s v o = elim (Bool-cases s.full) [
  | inl y ↦ ground arith
  | inr n ↦ rw n refl
]

account_of-read :
    (s : Store) (users : Dict Text Account) (v : Text)
    → read_users s ≡ ok users
    → account_of v s ≡ get v users
unfolding account_of
account_of-read s users v r = rw (r, account_of) refl

-- One name has an account before and after, with its epoch raised by `step`; no other changed.
record Renewed (step : ℤ → ℤ) (u : Text) (s s' : Store) : Type 0 where
  old : Account
  new : Account
  was : account_of u s ≡ some old
  is : account_of u s' ≡ some new
  raised : epoch_of new ≡ step (epoch_of old)
  others : (v : Text) → u ≢ v → account_of v s' ≡ account_of v s

-- One account is put back changed, and the file written.
put-Renewed :
    (step : ℤ → ℤ) (u : Text) (users : Dict Text Account) (a b : Account) (s t : Store)
    → read_users s ≡ ok users
    → get u users ≡ some a
    → epoch_of b ≡ step (epoch_of a)
    → is_ok (write_users (put u b users) t).0 ≡ true
    → Renewed step u s (write_users (put u b users) t).1
put-Renewed step u users a b s t r g e o = record {
  old = a;
  new = b;
  was = account_of-read s users u r ∙ g;
  is = write_users-account_of (put u b users) t u o ∙ get-put_self u b users;
  raised = e;
  others = λ v ne.
      write_users-account_of (put u b users) t v o
      ∙ get-put_ne u v b users ne
      ∙ sym (account_of-read s users v r);
}

bump-Renewed :
    (f : Account → Account) (e : Exception) (u : Text) (s : Store)
    → is_ok (bump f e u s).0 ≡ true
    → Renewed suc_ℤ u s (bump f e u s).1
unfolding bump epoch_of
bump-Renewed f e u s o = elim (Outcome-cases (read_users s)) [
  | inr (x, bad) ↦ absurd (cc (rw (bad, bump) at o))
  | inl (users, good) ↦ elim (Option-cases (get u users)) [
    | inl gone ↦ absurd (cc (rw gone at (rw (good, bump) at o)))
    | inr (a, held) ↦
        rw (good, bump) rw held
          (put-Renewed suc_ℤ u users a
            (record (f a) { session_epoch = number (suc_ℤ (epoch_of a)) }) s s good held refl
            (rw held at (rw (good, bump) at o)))
  ]
]

rehash-Renewed :
    (c : Crypto) (u password : Text) (users : Dict Text Account) (a : Account) (s : Store)
    → read_users s ≡ ok users
    → get u users ≡ some a
    → is_ok (rehash c u password users a s).0 ≡ true
    → Renewed (λ n. n) u s (rehash c u password users a s).1
unfolding rehash epoch_of
rehash-Renewed c u password users a s good held o =
    let b : Account = record a { password_hash = some (c.hash s.salt password) } in
    elim (Outcome-cases (write_users (put u b users) (used_salt s)).0) [
      | inl (x, w) ↦
          rw (w, rehash)
            (put-Renewed (λ n. n) u users a b s (used_salt s) good held refl (rw w refl))
      | inr (x, w) ↦ absurd (cc (rw (w, rehash) at o))
    ]

-- A check of a password that passes leaves every epoch, whether the hash was renewed or not.
verify-Renewed :
    (c : Crypto) (u password : Text) (s : Store)
    → is_ok (verify c u password s).0 ≡ true
    → Renewed (λ n. n) u s (verify c u password s).1
unfolding verify epoch_of
verify-Renewed c u password s o = elim (Outcome-cases (read_users s)) [
  | inr (x, bad) ↦ absurd (cc (rw (bad, verify) at o))
  | inl (users, good) ↦ elim (Option-cases (get u users)) [
    | inl gone ↦ absurd (cc (rw gone at (rw (good, verify) at o)))
    | inr (a, held) ↦ elim (Option-cases a.password_hash) [
      | inl bare ↦ absurd (cc (rw bare at (rw held at (rw (good, verify) at o))))
      | inr (h, hashed) ↦ elim (Bool-cases (c.verify h password)) [
        | inr wrong ↦ absurd (cc (rw wrong at (rw hashed at (rw held at (rw (good, verify) at o)))))
        | inl right ↦ elim (Bool-cases (c.needs_rehash h)) [
          | inr recent ↦
              rw (good, verify) rw held rw hashed rw right rw recent
                (record {
                  old = a;
                  new = a;
                  was = account_of-read s users u good ∙ held;
                  is = account_of-read s users u good ∙ held;
                  raised = refl;
                  others = λ v ne. refl;
                })
          | inl stale ↦
              rw (good, verify) rw held rw hashed rw right rw stale
                (rehash-Renewed c u password users a s good held
                  (rw stale at (rw right at (rw hashed at (rw held at (rw (good, verify) at o))))))
        ]
      ]
    ]
  ]
]

Renewed-trans :
    (step : ℤ → ℤ) (u : Text) (r s t : Store)
    → Renewed (λ n. n) u r s
    → Renewed step u s t
    → Renewed step u r t
Renewed-trans step u r s t f g = record {
  old = f.old;
  new = g.new;
  was = f.was;
  is = g.is;
  raised = g.raised ∙ ap step (ap epoch_of (cc (g.was, f.is)) ∙ f.raised);
  others = λ v ne. g.others v ne ∙ f.others v ne;
}

salted-Renewed :
    (step : ℤ → ℤ) (u : Text) (s t : Store) → Renewed step u s t → Renewed step u s (used_salt t)
unfolding account_of read_users
salted-Renewed step u s t f = record {
  old = f.old;
  new = f.new;
  was = f.was;
  is = f.is;
  raised = f.raised;
  others = f.others;
}

change_password-Renewed :
    (c : Crypto) (u current new : Text) (s : Store)
    → is_ok (change_password c u current new s).0 ≡ true
    → Renewed suc_ℤ u s (change_password c u current new s).1
unfolding change_password
change_password-Renewed c u current new s o = elim (Outcome-cases (verify c u current s).0) [
  | inr (x, bad) ↦ absurd (cc (rw (bad, change_password) at o))
  | inl (x, good) ↦ elim (Bool-cases (ltb (length new) 12)) [
    | inl short ↦ absurd (cc (rw short at (rw (good, change_password) at o)))
    | inr long ↦ elim (Bool-cases (new == current)) [
      | inl same ↦ absurd (cc (rw same at (rw long at (rw (good, change_password) at o))))
      | inr differs ↦
          rw (good, change_password) rw long rw differs
            (Renewed-trans suc_ℤ u s (used_salt (verify c u current s).1) _
              (salted-Renewed (λ n. n) u s (verify c u current s).1
                (verify-Renewed c u current s (rw good refl)))
              (bump-Renewed
                (λ a. record a { password_hash = some (c.hash (verify c u current s).1.salt new) })
                other_exception u (used_salt (verify c u current s).1)
                (rw differs at (rw long at (rw (good, change_password) at o)))))
    ]
  ]
]

suc_ℤ-ne : (n : ℤ) → (n == suc_ℤ n) ≡ false
suc_ℤ-ne (pos n) = ground arith
suc_ℤ-ne (negsuc zero) = refl
suc_ℤ-ne (negsuc (suc n)) = ground arith

read_payload-account_of :
    (u : Text) (e : Epoch) (s : Store)
    → read_payload (payload (some u) e) s
      ≡ elim (account_of u s) [ none ↦ none | some a ↦ if same_epoch e a then some u else none ]
unfolding read_payload account_of
read_payload-account_of u e s = elim (Outcome-cases (read_users s)) [
  | inl (users, good) ↦ rw (good, read_payload, account_of) refl
  | inr (x, bad) ↦ rw (bad, read_payload, account_of) refl
]

older_epoch :
    (e : Epoch) (a b : Account)
    → epoch_of b ≡ suc_ℤ (epoch_of a)
    → same_epoch e a ≡ true
    → same_epoch e b ≡ false
unfolding same_epoch
older_epoch missing a b r h = rw (r, ← ==→≡ (pos 0) (epoch_of a) h) refl
older_epoch (number n) a b r h = rw (r, ← ==→≡ n (epoch_of a) h) (suc_ℤ-ne n)
older_epoch junk a b r h = refl

Renewed-ends :
    (u : Text) (e : Epoch) (s s' : Store)
    → Renewed suc_ℤ u s s'
    → read_payload (payload (some u) e) s ≡ some u
    → read_payload (payload (some u) e) s' ≡ none
Renewed-ends u e s s' f h =
    let held : same_epoch e f.old ≡ true = elim (Bool-cases (same_epoch e f.old)) [
      | inl y ↦ y
      | inr n ↦ absurd (cc (rw n at (rw f.was at (rw (read_payload-account_of u e s) at h))))
    ] in
    rw (read_payload-account_of u e s') rw f.is rw (older_epoch e f.old f.new f.raised held) refl

Renewed-spares :
    (u v : Text) (e : Epoch) (s s' : Store)
    → Renewed suc_ℤ u s s'
    → u ≢ v
    → read_payload (payload (some v) e) s' ≡ read_payload (payload (some v) e) s
Renewed-spares u v e s s' f ne =
    rw (read_payload-account_of v e s', f.others v ne, read_payload-account_of v e s) refl

-- A password change that returns ends every session of the user that was good before it: what
-- the session's token carries is refused afterwards.
pub password_change_ends_sessions :
    (c : Crypto) (u current new : Text) (e : Epoch) (s : Store)
    → is_ok (change_password c u current new s).0 ≡ true
    → read_payload (payload (some u) e) s ≡ some u
    → read_payload (payload (some u) e) (change_password c u current new s).1 ≡ none
password_change_ends_sessions c u current new e s o =
    Renewed-ends u e s (change_password c u current new s).1
      (change_password-Renewed c u current new s o)

-- A password change that returns leaves the sessions of every other user as they were.
pub password_change_spares_others :
    (c : Crypto) (u v current new : Text) (e : Epoch) (s : Store)
    → is_ok (change_password c u current new s).0 ≡ true
    → u ≢ v
    → read_payload (payload (some v) e) (change_password c u current new s).1
      ≡ read_payload (payload (some v) e) s
password_change_spares_others c u v current new e s o =
    Renewed-spares u v e s (change_password c u current new s).1
      (change_password-Renewed c u current new s o)

-- A revocation that returns ends every session of the user that was good before it.
pub revocation_ends_sessions :
    (u : Text) (e : Epoch) (s : Store)
    → is_ok (revoke_sessions u s).0 ≡ true
    → read_payload (payload (some u) e) s ≡ some u
    → read_payload (payload (some u) e) (revoke_sessions u s).1 ≡ none
unfolding revoke_sessions
revocation_ends_sessions u e s o =
    Renewed-ends u e s (revoke_sessions u s).1
      (bump-Renewed (λ a. a) (auth_error no_such_account) u s o)

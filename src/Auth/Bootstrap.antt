-- ===== src/Auth/Bootstrap.antt =====
-- When the first account may be made, and what an unreadable account file closes.
use ktn_enclosure_manager.Common.{
  ◌≡◌, refl, true, false, Option, none, some, [], ◌∷◌, length, ltb, ◌==◌, list_eq, nat_eq, arith,
  Bool-cases, Option-cases, inl, inr,
}
use ktn_enclosure_manager.Common.Dict.{Dict, put}
use ktn_enclosure_manager.Common.Text.{Text, strip, lower, codes}
use ktn_enclosure_manager.Errors.{
  Exception, raise, Outcome-cases, is_ok, auth_error, account_exists,
}
use ktn_enclosure_manager.Auth.Accounts.{
  Account, Payload, payload, other_payload, Crypto, Store, read_users, write_users, used_salt,
  is_username, needs_bootstrap, create_user, bootstrap, verify, read_payload, read_session,
}

refused_payload :
    (p : Payload) (s : Store) (e : Exception) → read_users s ≡ raise e → read_payload p s ≡ none
unfolding read_payload
refused_payload other_payload s e bad = refl
refused_payload (payload none n) s e bad = refl
refused_payload (payload (some u) n) s e bad = rw (bad, read_payload) refl

refused_session :
    (c : Crypto) (token : Option Text) (s : Store) (e : Exception)
    → read_users s ≡ raise e
    → read_session c token s ≡ none
unfolding read_session
refused_session c none s e bad = refl
refused_session c (some []) s e bad = refl
refused_session c (some (t ∷ ts)) s e bad = elim (Option-cases (c.loads s.now (t ∷ ts))) [
  | inl forged ↦ rw (forged, read_session) refl
  | inr (p, genuine) ↦ rw (genuine, read_session) (refused_payload p s e bad)
]

put_closes :
    (users : Dict Text Account) (u : Text) (a : Account) (s : Store)
    → is_ok (write_users (put u a users) s).0 ≡ true
    → needs_bootstrap (write_users (put u a users) s).1 ≡ false
unfolding write_users needs_bootstrap put read_users
put_closes [] u a s o = elim (Bool-cases s.full) [ inl y ↦ ground arith | inr n ↦ rw n refl ]
put_closes ((j, b) ∷ users) u a s o = elim (Bool-cases s.full) [
  | inl y ↦ ground arith
  | inr n ↦ elim (Bool-cases (j == u)) [ inl y ↦ rw n rw y refl | inr m ↦ rw n rw m refl ]
]

create_user_closes :
    (c : Crypto) (u password : Text) (s : Store)
    → is_ok (create_user c u password s).0 ≡ true
    → needs_bootstrap (create_user c u password s).1 ≡ false
unfolding create_user
create_user_closes c u password s o = elim (Bool-cases (is_username (strip u))) [
  | inr n ↦ absurd (cc (rw (n, create_user) at o))
  | inl y ↦ elim (Bool-cases (lower (strip u) == codes "anonymous")) [
    | inl y' ↦ absurd (cc (rw y' at (rw (y, create_user) at o)))
    | inr n' ↦ elim (Bool-cases (ltb (length password) 12)) [
      | inl short ↦ absurd (cc (rw short at (rw n' at (rw (y, create_user) at o))))
      | inr long ↦ elim (Outcome-cases (read_users s)) [
        | inr (e, bad) ↦ absurd (cc (rw bad at (rw long at (rw n' at (rw (y, create_user) at o)))))
        | inl (users, good) ↦
            rw (y, create_user) rw n' rw long rw good
              (put_closes users (strip u) _ (used_salt s)
                (rw good at (rw long at (rw n' at (rw (y, create_user) at o)))))
      ]
    ]
  ]
]

-- An account file that exists and cannot be read closes everything: there is no bootstrap, no
-- sign-in and no session, and a bootstrap changes nothing.
pub unreadable_accounts_fail_closed :
    (c : Crypto) (u password : Text) (token : Option Text) (s : Store) (e : Exception)
    → read_users s ≡ raise e
    → (needs_bootstrap s ≡ false)
      × (bootstrap c u password s ≡ (raise (auth_error account_exists), s))
      × (verify c u password s ≡ (raise e, s))
      × (read_session c token s ≡ none)
unfolding bootstrap verify needs_bootstrap
unreadable_accounts_fail_closed c u password token s e bad =
    let shut : needs_bootstrap s ≡ false = rw (bad, needs_bootstrap) refl in
    (shut, rw shut refl, rw (bad, verify) refl, refused_session c token s e bad)

-- A bootstrap that returns is the last one: afterwards there is an account, and any further
-- bootstrap raises and leaves the accounts as they are.
pub bootstrap_once :
    (c : Crypto) (u v password password' : Text) (s : Store)
    → is_ok (bootstrap c u password s).0 ≡ true
    → (needs_bootstrap (bootstrap c u password s).1 ≡ false)
      × (bootstrap c v password' (bootstrap c u password s).1
          ≡ (raise (auth_error account_exists), (bootstrap c u password s).1))
unfolding bootstrap
bootstrap_once c u v password password' s o = elim (Bool-cases (needs_bootstrap s)) [
  | inr n ↦ absurd (cc (rw (n, bootstrap) at o))
  | inl y ↦
      let shut = create_user_closes c u password s (rw (y, bootstrap) at o) in
      rw (y, bootstrap) (shut, rw shut refl)
]

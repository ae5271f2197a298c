-- ===== src/Auth/Accounts.antt =====
-- `AuthService` of backend/ktnmgr/services/auth.py: accounts, and the sessions that name them.
use ktn_enclosure_manager.Common.{
  ℕ, ◌+◌, ℤ, pos, suc_ℤ, Bool, true, false, not, ◌&&◌, ◌||◌, Option, none, some, [], ◌∷◌, length,
  ltb, leb, if◌then◌else◌, ◌==◌, list_eq, nat_eq, int_eq,
}
use ktn_enclosure_manager.Common.Dict.{Dict, get, put}
use ktn_enclosure_manager.Common.Text.{Text, codes, strip, lower}
use ktn_enclosure_manager.Errors.{
  Exception, auth_error, os_error, other_exception, accounts_unreadable, accounts_not_object,
  account_exists, invalid_username, reserved_username, short_password, same_password,
  no_such_account, invalid_credentials, Outcome, ok, raise,
}

-- The value under `session_epoch` or `e`: absent or falsy, one that `int` takes, or another.
pub data Epoch : Type 0 where
  missing : Epoch
  number : ℤ → Epoch
  junk : Epoch

pub record Account : Type 0 where
  pub password_hash : Option Text
  pub created_at : ℕ
  pub session_epoch : Epoch

-- The file at `users_path`.
pub data AccountsFile : Type 0 where
  absent : AccountsFile
  unreadable : AccountsFile
  not_object : AccountsFile
  accounts : Dict Text Account → AccountsFile

-- What a genuine token carries: no JSON object, or its `u`, none if it is falsy, and its `e`.
pub data Payload : Type 0 where
  other_payload : Payload
  payload : Option Text → Epoch → Payload

-- argon2 and itsdangerous. `verify` is false where the hasher raises; `loads` is none for a bad
-- signature and for an expired token.
pub record Crypto : Type 0 where
  pub hash : ℕ → Text → Text
  pub verify : Text → Text → Bool
  pub needs_rehash : Text → Bool
  pub dumps : ℕ → Payload → Text
  pub loads : ℕ → Text → Option Payload

-- `salt` stands for the randomness of the next hash; `full` says that a write raises `OSError`.
pub record Store : Type 0 where
  pub file : AccountsFile
  pub full : Bool
  pub salt : ℕ
  pub now : ℕ

-- `_read_users`
unfoldable pub read_users : Store → Outcome (Dict Text Account)
read_users s = elim s.file [
  | absent ↦ ok []
  | unreadable ↦ raise (auth_error accounts_unreadable)
  | not_object ↦ raise (auth_error accounts_not_object)
  | accounts users ↦ ok users
]

-- `_write_users`: the new file replaces the old one at once, or not at all.
unfoldable pub write_users : Dict Text Account → Store → Outcome (Unit {0}) × Store
write_users users s =
    if s.full then (raise os_error, s) else (ok tt, record s { file = accounts users })

abbrev pub used_salt : Store → Store
used_salt s = record s { salt = s.salt + 1 }

unfoldable pub needs_bootstrap : Store → Bool
unfolding read_users
needs_bootstrap s = elim (read_users s) [
  | ok users ↦ elim users [ [] ↦ true | _ ∷ _ ↦ false ]
  | raise _ ↦ false
]

-- `[A-Za-z0-9._@-]`
abbrev pub is_name_code : ℕ → Bool
is_name_code c =
    (leb 65 c && leb c 90)
    || (leb 97 c && leb c 122)
    || (leb 48 c && leb c 57)
    || (c == 46)
    || (c == 95)
    || (c == 64)
    || (c == 45)

unfoldable pub all_name_codes : Text → Bool
all_name_codes [] = true
all_name_codes (c ∷ cs) = is_name_code c && all_name_codes cs

-- `USERNAME_RE.fullmatch`
unfoldable pub is_username : Text → Bool
unfolding all_name_codes
is_username name = (leb 1 (length name) && leb (length name) 64) && all_name_codes name

abbrev pub min_password_length : ℕ
min_password_length = 12

unfoldable pub create_user : Crypto → Text → Text → Store → Outcome (Unit {0}) × Store
unfolding strip lower is_username read_users write_users put
create_user c name password s =
    let username = strip name in
    if not (is_username username)
    then (raise (auth_error invalid_username), s)
    else if lower username == codes "anonymous"
    then (raise (auth_error reserved_username), s)
    else if ltb (length password) min_password_length
    then (raise (auth_error short_password), s)
    else elim (read_users s) [
      | raise e ↦ (raise e, s)
      | ok users ↦
          let account : Account = record {
            password_hash = some (c.hash s.salt password);
            created_at = s.now;
            session_epoch = number (pos 0);
          } in
          write_users (put username account users) (used_salt s)
    ]

unfoldable pub bootstrap : Crypto → Text → Text → Store → Outcome (Unit {0}) × Store
unfolding needs_bootstrap create_user
bootstrap c name password s =
    if needs_bootstrap s
    then create_user c name password s
    else (raise (auth_error account_exists), s)

-- `_epoch_of`
unfoldable pub epoch_of : Account → ℤ
epoch_of a = elim a.session_epoch [ missing ↦ pos 0 | number n ↦ n | junk ↦ pos 0 ]

-- The end of `verify` for a hash with outdated parameters.
unfoldable pub rehash :
    Crypto → Text → Text → Dict Text Account → Account → Store → Outcome Text × Store
unfolding write_users put
rehash c username password users a s =
    let rehashed = record a { password_hash = some (c.hash s.salt password) } in
    let (o, s') = write_users (put username rehashed users) (used_salt s) in
    elim o [ ok _ ↦ (ok username, s') | raise e ↦ (raise e, s') ]

-- `verify`; the hash of a missing user is computed for its time alone.
unfoldable pub verify : Crypto → Text → Text → Store → Outcome Text × Store
unfolding read_users rehash get
verify c username password s = elim (read_users s) [
  | raise e ↦ (raise e, s)
  | ok users ↦ elim (get username users) [
    | none ↦ (raise (auth_error invalid_credentials), used_salt s)
    | some a ↦ elim a.password_hash [
      | none ↦ (raise (auth_error invalid_credentials), s)
      | some h ↦
          if not (c.verify h password)
          then (raise (auth_error invalid_credentials), s)
          else if c.needs_rehash h
          then rehash c username password users a s
          else (ok username, s)
    ]
  ]
]

-- `users[username]` with its epoch raised, and then the write; a missing key is a `KeyError`.
unfoldable pub bump : (Account → Account) → Exception → Text → Store → Outcome (Unit {0}) × Store
unfolding read_users write_users get put epoch_of
bump f absent_error username s = elim (read_users s) [
  | raise e ↦ (raise e, s)
  | ok users ↦ elim (get username users) [
    | none ↦ (raise absent_error, s)
    | some a ↦
        write_users
          (put username (record (f a) { session_epoch = number (suc_ℤ (epoch_of a)) }) users) s
  ]
]

unfoldable pub change_password : Crypto → Text → Text → Text → Store → Outcome (Unit {0}) × Store
unfolding verify bump
change_password c username current new s =
    let (o, s') = verify c username current s in
    elim o [
      | raise e ↦ (raise e, s')
      | ok _ ↦
          if ltb (length new) min_password_length
          then (raise (auth_error short_password), s')
          else if new == current
          then (raise (auth_error same_password), s')
          else bump (λ a. record a { password_hash = some (c.hash s'.salt new) }) other_exception
              username (used_salt s')
    ]

unfoldable pub revoke_sessions : Text → Store → Outcome (Unit {0}) × Store
unfolding bump
revoke_sessions = bump (λ a. a) (auth_error no_such_account)

unfoldable pub issue_session : Crypto → Text → Store → Outcome Text
unfolding read_users get epoch_of
issue_session c username s = elim (read_users s) [
  | raise e ↦ raise e
  | ok users ↦
      let epoch : ℤ = elim (get username users) [ none ↦ pos 0 | some a ↦ epoch_of a ] in
      ok (c.dumps s.now (payload (some username) (number epoch)))
]

-- The comparison of the token's epoch with the account's.
unfoldable pub same_epoch : Epoch → Account → Bool
unfolding epoch_of
same_epoch missing a = pos 0 == epoch_of a
same_epoch (number n) a = n == epoch_of a
same_epoch junk a = false

unfoldable pub read_payload : Payload → Store → Option Text
unfolding read_users get same_epoch
read_payload other_payload s = none
read_payload (payload none e) s = none
read_payload (payload (some username) e) s = elim (read_users s) [
  | raise _ ↦ none
  | ok users ↦ elim (get username users) [
    | none ↦ none
    | some a ↦ if same_epoch e a then some username else none
  ]
]

-- `read_session`; an absent or empty token is none.
unfoldable pub read_session : Crypto → Option Text → Store → Option Text
unfolding read_payload
read_session c none s = none
read_session c (some []) s = none
read_session c (some (t ∷ ts)) s = elim (c.loads s.now (t ∷ ts)) [
  | none ↦ none
  | some p ↦ read_payload p s
]

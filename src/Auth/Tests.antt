-- ===== src/Auth/Tests.antt =====
-- Three attempts against a limit of two, and an account file with two accounts.
use ktn_enclosure_manager.Common.{
  ℕ, zero, suc, pos, negsuc, ◌≢◌, Option, none, some, int_eq, nat_eq, list_eq, ◌==◌, ◌≡◌, refl,
  true, false, List, [], ◌∷◌, arith, list_eq, nat_eq,
}
use ktn_enclosure_manager.Common.Dict.{get, put}
use ktn_enclosure_manager.Common.Text.{Text, codes}
use ktn_enclosure_manager.Errors.{ok, raise, auth_error, account_exists}
use ktn_enclosure_manager.Auth.Accounts.{
  Epoch, missing, number, junk, Account, accounts, absent, unreadable, Payload, payload,
  other_payload, Crypto, Store, read_users, write_users, is_username, needs_bootstrap, bootstrap,
  create_user, verify, bump, epoch_of, change_password, issue_session, read_payload, read_session,
  same_epoch,
}
use ktn_enclosure_manager.Auth.Sessions.{password_change_ends_sessions}
use ktn_enclosure_manager.Auth.Bootstrap.{bootstrap_once}
use ktn_enclosure_manager.Auth.Issue.{Signs, issued_session_reads}
use ktn_enclosure_manager.Auth.Limiter.{Limits, Limiter, new_limiter, check}
use ktn_enclosure_manager.Auth.Window.{Log, Run, start, attempt, let_through, check_exact}

abbrev limits : Limits
limits = record { limit = 2; window = 60 }

abbrev peer : Text
peer = codes "10.0.0.7"

abbrev after : List ℕ → Limiter
after [] = new_limiter
after (t ∷ ts) = (check limits peer t (after ts)).1

abbrev log : Log
log = (peer, 5) ∷ (peer, 3) ∷ []

two_attempts : Run limits (after (5 ∷ 3 ∷ [])) log 5
unfolding check get put
two_attempts = attempt peer 5 (omega arith) (attempt peer 3 (omega arith) start)

third_has_room_again : (check limits peer 63 (after (5 ∷ 3 ∷ []))).0 ≡ true
unfolding check get put
third_has_room_again = refl

check_exact_example : (check limits peer 30 (after (5 ∷ 3 ∷ []))).0 ≡ false
unfolding let_through
check_exact_example =
    check_exact limits (after (5 ∷ 3 ∷ [])) log 5 30 peer two_attempts (omega arith)

-- A serializer that writes a payload out, and a hasher that does not hide the password.
abbrev write_epoch : Epoch → List ℕ → List ℕ
write_epoch missing rest = 0 ∷ 0 ∷ rest
write_epoch (number (pos n)) rest = 1 ∷ n ∷ rest
write_epoch (number (negsuc n)) rest = 2 ∷ n ∷ rest
write_epoch junk rest = 3 ∷ 0 ∷ rest

abbrev write_payload : Payload → List ℕ
write_payload other_payload = 0 ∷ []
write_payload (payload none e) = 1 ∷ write_epoch e (0 ∷ [])
write_payload (payload (some u) e) = 1 ∷ write_epoch e (1 ∷ u)

abbrev scan_epoch : ℕ → ℕ → Epoch
scan_epoch zero n = missing
scan_epoch (suc zero) n = number (pos n)
scan_epoch (suc (suc zero)) n = number (negsuc n)
scan_epoch (suc (suc (suc k))) n = junk

abbrev scan_name : List ℕ → Option Text
scan_name (suc k ∷ u) = some u
scan_name _ = none

abbrev scan_payload : List ℕ → Option Payload
scan_payload (suc k ∷ m ∷ n ∷ rest) = some (payload (scan_name rest) (scan_epoch m n))
scan_payload (zero ∷ []) = some other_payload
scan_payload _ = none

abbrev plain : Crypto
plain = record {
  hash = λ salt p. p;
  verify = λ h p. h == p;
  needs_rehash = λ h. false;
  dumps = λ now p. write_payload p;
  loads = λ now t. scan_payload t;
}

scan-write : (p : Payload) → scan_payload (write_payload p) ≡ some p
scan-write other_payload = refl
scan-write (payload none missing) = refl
scan-write (payload none (number (pos n))) = refl
scan-write (payload none (number (negsuc n))) = refl
scan-write (payload none junk) = refl
scan-write (payload (some u) missing) = refl
scan-write (payload (some u) (number (pos n))) = refl
scan-write (payload (some u) (number (negsuc n))) = refl
scan-write (payload (some u) junk) = refl

write_some : (p : Payload) → write_payload p ≢ []
write_some other_payload = λ e. cc e
write_some (payload none e) = λ h. cc h
write_some (payload (some u) e) = λ h. cc h

plain-Signs : Signs plain
plain-Signs = record { genuine = λ now p. scan-write p; never_empty = λ now p. write_some p }

abbrev anna : Text
anna = codes "anna"

abbrev old_password : Text
old_password = codes "correct horse"

abbrev new_password : Text
new_password = codes "battery staple"

abbrev account : Account
account = record {
  password_hash = some old_password;
  created_at = 0;
  session_epoch = number (pos 4);
}

abbrev users : List (Text × Account)
users = (anna, account) ∷ (codes "bert", account) ∷ []

abbrev store : Store
store = record { file = accounts users; full = false; salt = 0; now = 9 }

password_change_ends_sessions_example :
    read_payload
      (payload (some anna) (number (pos 4)))
      (change_password plain anna old_password new_password store).1
    ≡ none
unfolding change_password verify bump read_users write_users get put epoch_of read_payload
    same_epoch
password_change_ends_sessions_example =
    password_change_ends_sessions plain anna old_password new_password (number (pos 4)) store refl
      refl

anna_is_not_bert : anna ≢ codes "bert"
anna_is_not_bert e =
    let same : (anna == codes "bert") ≡ true =
      ((list_eq {A = ℕ}).decides anna (codes "bert")).1 e in
    absurd (cc same)

abbrev corrupt : Store
corrupt = record store { file = unreadable }

abbrev first_run : Store
first_run = record store { file = absent }

bootstrap_once_example :
    (needs_bootstrap (bootstrap plain anna new_password first_run).1 ≡ false)
    × (bootstrap plain (codes "eve") old_password (bootstrap plain anna new_password first_run).1
        ≡ (raise (auth_error account_exists), (bootstrap plain anna new_password first_run).1))
unfolding bootstrap create_user needs_bootstrap read_users write_users is_username get put
bootstrap_once_example =
    bootstrap_once plain anna (codes "eve") new_password old_password first_run refl

issued_session_reads_example :
    (token : Text) × (issue_session plain anna store ≡ ok token)
    × (read_session plain (some token) store ≡ some anna)
unfolding read_users get
issued_session_reads_example =
    issued_session_reads plain plain-Signs anna users account store refl refl

-- ===== src/Auth/Issue.antt =====
-- A session that was just issued.
use ktn_enclosure_manager.Common.{
  ℕ, ◌≡◌, ◌≢◌, refl, ◌∙◌, some, [], ◌∷◌, ==-refl, list_eq, nat_eq, int_eq,
}
use ktn_enclosure_manager.Common.Dict.{Dict, get}
use ktn_enclosure_manager.Common.Text.{Text}
use ktn_enclosure_manager.Errors.{ok}
use ktn_enclosure_manager.Auth.Accounts.{
  number, Account, Payload, payload, Crypto, Store, read_users, epoch_of, issue_session, same_epoch,
  read_payload, read_session,
}

-- What the serializer promises: a token loads as what was put into it, before any time passes,
-- and is no empty text.
pub record Signs (c : Crypto) : Type 0 where
  pub genuine : (now : ℕ) (p : Payload) → c.loads now (c.dumps now p) ≡ some p
  pub never_empty : (now : ℕ) (p : Payload) → c.dumps now p ≢ []

load_token :
    (c : Crypto) (token : Text) (p : Payload) (s : Store)
    → token ≢ []
    → c.loads s.now token ≡ some p
    → read_session c (some token) s ≡ read_payload p s
unfolding read_session
load_token c [] p s ne l = absurd (ne refl)
load_token c (t ∷ ts) p s ne l = rw (l, read_session) refl

-- With a serializer that keeps its promises, a session that is issued for an existing account is
-- accepted for that account.
pub issued_session_reads :
    (c : Crypto) (signs : Signs c) (u : Text) (users : Dict Text Account) (a : Account) (s : Store)
    → read_users s ≡ ok users
    → get u users ≡ some a
    → (token : Text) × (issue_session c u s ≡ ok token) × (read_session c (some token) s ≡ some u)
unfolding issue_session read_payload same_epoch
issued_session_reads c signs u users a s good held =
    let p : Payload = payload (some u) (number (epoch_of a)) in
    (
      c.dumps s.now p,
      rw (good, issue_session) rw held refl,
      load_token c (c.dumps s.now p) p s (signs.never_empty s.now p) (signs.genuine s.now p)
          ∙ rw (good, read_payload) rw held rw (==-refl (epoch_of a)) refl,
    )

-- ===== src/Auth/Sessions.antt =====
-- auth/service.py: authentication by a session's token, and the revocation of sessions.
-- `session_id` is the digest by which a session is named to the client, a parameter of the section.
pub mod Admission
pub mod Revoked
pub mod Password
use craftcontrol.Base.{
  ℕ, ◌+◌, min, Bool, false, Option, none, some, List, String, ltb, leb, not, ◌&&◌, if◌then◌else◌,
  str_eq, find, is_some, any,
}
use craftcontrol.Base.Dict.{lookup}
use craftcontrol.Auth.Tables.{
  Account, Session, Database, Profile, User, session_not_found, not_revocable, wrong_password,
  permission, success, denied, seconds, is_active, update_where, update_account,
}
use craftcontrol.Auth.Transaction.{
  Action, ◌>>=◌, ◌>>◌, pure, raise, gets, modify, raise_if, transaction,
}
use craftcontrol.Auth.Access.{
  Crypto, audit, validate_password, verify_password, create_session, public_user, find_profile,
}

-- `not token`: no token, or an empty one
abbrev pub given : Option String → Option String
given none = none
given (some t) = if str_eq t "" then none else some t

-- `require_capability`
unfoldable pub require_capability : User → String → Action (Unit {0})
require_capability user capability =
    raise_if
      (not (any (λ c. str_eq c "*") user.capabilities)
        && not (any (λ c. str_eq c capability) user.capabilities))
      (permission capability)

-- SESSION_TOUCH_INTERVAL_SECONDS
abbrev pub touch_interval : ℕ
touch_interval = seconds 60

-- Whether `authenticate` accepts a session of an account, at a time.
unfoldable pub accepts : ℕ → Session → Account → Bool
accepts now s a =
    is_active a.status
    && not (is_some s.revoked_at)
    && not (ltb (min s.idle_expires_at s.absolute_expires_at) now)

-- Whether a session can still be used, by `idle_expires_at>=? AND absolute_expires_at>=?`.
abbrev pub usable : ℕ → Session → Bool
usable now s =
    not (is_some s.revoked_at) && leb now s.idle_expires_at && leb now s.absolute_expires_at

module _ (c : Crypto) where
  -- The row that the joins of sessions, accounts and profiles give for a session.
  abbrev pub with_profile :
      Session → Account → Option Profile → Option (Session × Account × Profile)
  with_profile s a none = none
  with_profile s a (some p) = some (s, a, p)

  abbrev pub with_account :
      Session → List Profile → Option Account → Option (Session × Account × Profile)
  with_account s ps none = none
  with_account s ps (some a) = with_profile s a (find_profile c s.identity ps)

  abbrev pub joined : Database → Option Session → Option (Session × Account × Profile)
  joined db none = none
  joined db (some s) = with_account s db.profiles (lookup s.identity db.accounts)

  abbrev pub has_token : String → Session → Bool
  has_token token s = str_eq s.token_hash (c.token_hash token)

  -- The renewal of `last_seen_at` and `idle_expires_at`, once a minute.
  unfoldable pub touch : String → ℕ → Session → Action (Unit {0})
  touch token now s =
      if leb (s.last_seen_at + touch_interval) now
      then modify (λ db. record db {
        sessions =
            update_where (has_token token)
              (λ r. record r {
                last_seen_at = now;
                idle_expires_at = min (now + seconds c.idle_seconds) s.absolute_expires_at;
              })
              db.sessions;
      })
      else pure tt

  -- The end of `authenticate`, on the row it found.
  abbrev pub admit : String → ℕ → Option (Session × Account × Profile) → Action (Option User)
  admit token now none = pure none
  admit token now (some (s, a, p)) =
      if accepts now s a
      then touch token now s
        >> (public_user c s.identity (some p) (some a) >>= λ user. pure (some user))
      else pure none

  -- The block of `authenticate`, and its early return without a token.
  abbrev pub authenticate_given : ℕ → Option String → Action (Option User)
  authenticate_given now none = pure none
  authenticate_given now (some token) =
      transaction
        do row ← gets (λ db. joined db (find (has_token token) db.sessions)); admit token now row

  unfoldable pub authenticate : Option String → ℕ → Action (Option User)
  authenticate token now = authenticate_given now (given token)

  abbrev pub logout_given : ℕ → Option String → Action (Unit {0})
  logout_given now none = pure tt
  logout_given now (some token) = transaction (
      modify (λ db. record db {
        sessions =
            update_where (has_token token) (λ s. record s { revoked_at = some now }) db.sessions;
      }))

  unfoldable pub logout : Option String → ℕ → Action (Unit {0})
  logout token now = logout_given now (given token)

  -- `_active_session_identity`: the session of the token, if it is usable and its account active
  abbrev pub active_identity : ℕ → Database → Option Session → Action String
  active_identity now db none = raise session_not_found
  active_identity now db (some s) = elim (lookup s.identity db.accounts) [
    | none ↦ raise session_not_found
    | some a ↦
        if usable now s && is_active a.status then pure s.identity else raise session_not_found
  ]

  unfoldable pub active_session_identity : String → ℕ → Action String
  active_session_identity token now db =
      active_identity now db (find (has_token token) db.sessions) db

  -- The `UPDATE` that revokes the sessions of an identity but one.
  abbrev pub revoke_all_but : (Session → Bool) → String → ℕ → Database → Database
  revoke_all_but keep identity now db = record db {
    sessions =
        update_where (λ s. str_eq s.identity identity && not (keep s) && not (is_some s.revoked_at))
          (λ s. record s { revoked_at = some now }) db.sessions;
  }

  unfoldable pub revoke_other_sessions : String → ℕ → ℕ → ℕ → Action (Unit {0})
  revoke_other_sessions token now later at = transaction do
    identity ← active_session_identity token now
    modify (revoke_all_but (has_token token) identity later)
    audit at (some identity) "auth.sessions.revoked_all" (some identity) success

  -- The `next` over the sessions of the caller that are not revoked.
  abbrev pub target_session : (String → String) → String → String → List Session → Option Session
  target_session session_id identity id sessions =
      find
        (λ s.
          str_eq s.identity identity
          && not (is_some s.revoked_at)
          && str_eq (session_id s.token_hash) id)
        sessions

  abbrev pub revoke_target : String → ℕ → ℕ → String → String → Option Session → Action (Unit {0})
  revoke_target token now at identity id none =
      transaction (audit at (some identity) "auth.session.revoked" (some id) denied)
      >> raise not_revocable
  revoke_target token now at identity id (some s) =
      if has_token token s
      then transaction (audit at (some identity) "auth.session.revoked" (some id) denied)
        >> raise not_revocable
      else transaction (
          modify (λ db. record db {
            sessions =
                update_where (λ r. str_eq r.token_hash s.token_hash)
                  (λ r. record r { revoked_at = some now }) db.sessions;
          })
          >> audit at (some identity) "auth.session.revoked" (some id) success)

  unfoldable pub revoke_session : (String → String) → String → String → ℕ → ℕ → Action (Unit {0})
  revoke_session session_id token id now at = do
    identity ← transaction (active_session_identity token now)
    target ← gets (λ db. target_session session_id identity id db.sessions)
    revoke_target token now at identity id target

  -- The row of `change_password`: the session of the token, if usable, with its account.
  abbrev pub password_row : ℕ → Database → Option Session → Option (Session × Account)
  password_row now db none = none
  password_row now db (some s) =
      if usable now s
      then elim (lookup s.identity db.accounts) [ none ↦ none | some a ↦ some (s, a) ]
      else none

  abbrev pub deny_password : ℕ → Option String → Action (String × User)
  deny_password at identity =
      transaction (audit at identity "auth.password.changed" identity denied)
      >> raise wrong_password

  -- The last block of `change_password`.
  unfoldable pub replace_password : String → String → ℕ → ℕ → String → Action (String × User)
  replace_password new_token hash now at identity = transaction do
    modify (λ db. record (revoke_all_but (λ s. false) identity now db) {
      accounts =
          update_account identity (λ a. record a { password_hash = some hash; updated_at = now })
            db.accounts;
    })
    audit at (some identity) "auth.password.changed" (some identity) success
    create_session c new_token identity now

  abbrev pub change_for :
      String → String → ℕ → ℕ → String → Option (Session × Account) → Action (String × User)
  change_for new_token hash now at current none = deny_password at none
  change_for new_token hash now at current (some (s, a)) =
      if is_active a.status && verify_password c current a.password_hash
      then replace_password new_token hash now at s.identity
      else deny_password at (some s.identity)

  unfoldable pub change_password :
      String → String → ℕ → ℕ → String → String → String → Action (String × User)
  change_password new_token hash now at token current new = do
    validate_password c current
    validate_password c new
    row ← transaction (gets (λ db. password_row now db (find (has_token token) db.sessions)))
    change_for new_token hash now at current row

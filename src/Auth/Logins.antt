-- ===== src/Auth/Logins.antt =====
-- auth/service.py: logins with their limit, and suspensions.
use craftcontrol.Base.{
  ℕ, ◌+◌, Bool, true, false, Option, none, some, [], ◌∷◌, ◌++◌, String, ltb, leb, not, ◌&&◌, str_eq,
  is_some,
}
use craftcontrol.Base.Dict.{Dict, lookup}
use craftcontrol.Auth.Tables.{
  Status, Account, Attempt, Profile, Database, User, last_owner, too_many_attempts,
  invalid_credentials, no_access, success, denied, failure, seconds, is_active, owns, update_where,
  delete_where, count_where, update_account, active_owners, matches, latest,
}
use craftcontrol.Auth.Transaction.{
  ◌>>=◌, Action, Result, ok, err, ◌>>◌, pure, raise, gets, modify, raise_if, transaction,
}
use craftcontrol.Auth.Access.{Crypto, audit, verify_password, resolve_identity, create_session}

module _ (c : Crypto) where
  -- `occurred_at > now - 900`, of the attempts that failed under the key
  abbrev pub recent_failure : String → ℕ → Attempt → Bool
  recent_failure key now a =
      str_eq a.login_key key && not a.successful && ltb now (a.occurred_at + seconds 900)

  abbrev pub valid_login : String → Option Account → Bool
  valid_login password none = false
  valid_login password (some a) = is_active a.status && verify_password c password a.password_hash

  -- `identity or None`
  abbrev pub resolved : Option Profile → Option String
  resolved none = none
  resolved (some p) = some p.identity

  abbrev pub account_of : Option String → Dict Account → Option Account
  account_of none d = none
  account_of (some identity) d = lookup identity d

  -- The end of `login`, by whether the credentials are valid.
  abbrev pub settle_login : String → ℕ → ℕ → Option String → Bool → Action (String × User)
  settle_login session_token now at (some identity) true =
      audit at (some identity) "auth.login" (some identity) success
      >> create_session c session_token identity now
  settle_login session_token now at identity _ =
      audit at identity "auth.login" none denied >> raise invalid_credentials

  -- the `INSERT` of an attempt and the `DELETE` of those older than a day
  abbrev pub record_attempt : String → ℕ → Bool → Database → Database
  record_attempt key now valid db = record db {
    attempts =
        delete_where (λ a. ltb (a.occurred_at + seconds 86400) now)
          (db.attempts ++ record { login_key = key; occurred_at = now; successful = valid } ∷ []);
  }

  -- the block of `login` under `_connect`
  unfoldable pub try_login : String → ℕ → ℕ → String → String → Action (String × User)
  try_login session_token now at player password = do
    let key = c.login_key player
    failures ← gets (λ db. count_where (recent_failure key now) db.attempts)
    raise_if (leb 5 failures) too_many_attempts
    identity ← gets (λ db. resolved (latest (matches c.lower player) db.profiles))
    row ← gets (λ db. account_of identity db.accounts)
    let valid = valid_login password row
    modify (record_attempt key now valid)
    settle_login session_token now at identity valid

  unfoldable pub login : String → ℕ → ℕ → String → String → Action (String × User)
  login session_token now at player password =
      transaction (try_login session_token now at player password)

  -- What `suspend` refuses: no account, or the last active owner.
  abbrev pub suspendable : Option Account → ℕ → Action (Unit {0})
  suspendable none owners = raise no_access
  suspendable (some a) owners = raise_if (owns a && leb owners 1) last_owner

  -- the `try` block of `suspend`
  unfoldable pub suspend_access : ℕ → ℕ → String → String → Action String
  suspend_access now at player actor = transaction do
    identity ← resolve_identity c player
    account ← gets (λ db. lookup identity db.accounts)
    owners ← gets (λ db. active_owners db.accounts)
    suspendable account owners
    modify (λ db. record db {
      accounts =
          update_account identity (λ a. record a { status = Status.suspended; updated_at = now })
            db.accounts;
      sessions =
          update_where (λ s. str_eq s.identity identity && not (is_some s.revoked_at))
            (λ s. record s { revoked_at = some now }) db.sessions;
    })
    audit at (some actor) "auth.access.suspended" (some identity) success
    pure identity

  -- The identity that the `except` block of `suspend` audits: as far as it was resolved.
  abbrev pub after_suspend : ℕ → String → Option String → Result String → Action (Unit {0})
  after_suspend at actor identity (ok _) = pure tt
  after_suspend at actor identity (err e) =
      transaction (audit at (some actor) "auth.access.suspended" identity failure) >> raise e

  unfoldable pub suspend : ℕ → ℕ → String → String → Action (Unit {0})
  suspend now at player actor db =
      let (r, db') = suspend_access now at player actor db in
      after_suspend at actor (resolved (latest (matches c.lower player) db.profiles)) r db'

-- ===== src/Auth/Access.antt =====
-- auth/service.py: invitations, recovery, claims and the creation of sessions.
-- The digests, the check of a password against its scrypt hash and SQLite's `lower` are the
-- parameter `Crypto`. The new tokens and the hash of a new password are arguments, for they are
-- random; `now` is the operation's reading of the clock, `at` the later one of its audit entry.
use craftcontrol.Base.{
  ℕ, ◌+◌, min, Bool, false, Option, none, some, List, [], ◌∷◌, ◌++◌, String, ltb, leb, not, ◌&&◌,
  ◌||◌, if◌then◌else◌, str_eq, any, find, is_some,
}
use craftcontrol.Base.Dict.{lookup, insert}
use craftcontrol.Auth.Tables.{
  Role, Status, Account, Invitation, Session, AuditResult, Profile, User, unknown_player,
  password_length, already_owned, pending_owner, no_active_account, invalid_invitation, last_owner,
  missing_row, success, denied, seconds, is_active, is_owner, owns, update_where, delete_where,
  update_account, active_owners, matches, latest, capabilities,
}
use craftcontrol.Auth.Transaction.{
  ◌>>=◌, Action, ◌>>◌, pure, raise, gets, modify, raise_if, or_raise, transaction,
}

pub record Crypto : Type 0 where
  pub token_hash : String → String
  -- `hashlib.scrypt` of the password against an encoded hash
  pub matches_hash : String → String → Bool
  pub lower : String → String
  -- `player.casefold()[:64]`
  pub login_key : String → String
  pub password_length : String → ℕ
  pub idle_seconds : ℕ
  pub absolute_seconds : ℕ

-- `_audit`
abbrev pub audit : ℕ → Option String → String → Option String → AuditResult → Action (Unit {0})
audit at actor action target result = modify (λ db. record db {
  audit_log =
      db.audit_log
      ++ record {
        occurred_at = at;
        actor = actor;
        action = action;
        target = target;
        result = result;
      }
        ∷ [];
})

-- The upsert of `_insert_invitation`: an active account keeps its role and its status.
unfoldable pub invite_account : Role → ℕ → Option Account → Account
invite_account role now none = record {
  role = role;
  status = Status.invited;
  password_hash = none;
  created_at = now;
  updated_at = now;
}
invite_account role now (some a) =
    if is_active a.status
    then record a { updated_at = now }
    else record a { role = role; status = Status.invited; updated_at = now }

module _ (c : Crypto) where
  -- `_resolve_identity`
  unfoldable pub resolve_identity : String → Action String
  resolve_identity player = do
    row ← gets (λ db. latest (matches c.lower player) db.profiles)
    profile ← or_raise unknown_player row
    pure profile.identity

  -- `validate_password`
  unfoldable pub validate_password : String → Action (Unit {0})
  validate_password password =
      raise_if (ltb (c.password_length password) 8 || ltb 128 (c.password_length password))
        password_length

  -- `verify_password`
  unfoldable pub verify_password : String → Option String → Bool
  verify_password password none = false
  verify_password password (some encoded) = c.matches_hash password encoded

  -- `_insert_invitation`
  unfoldable pub insert_invitation :
      String → String → Role → Option String → ℕ → ℕ → Action (Unit {0})
  insert_invitation token identity role actor now lifetime = modify (λ db. record db {
    accounts = insert identity (invite_account role now (lookup identity db.accounts)) db.accounts;
    invitations =
        delete_where (λ i. str_eq i.identity identity && not (is_some i.used_at)) db.invitations
        ++ record {
          token_hash = c.token_hash token;
          identity = identity;
          role = role;
          created_at = now;
          expires_at = now + seconds lifetime;
          used_at = none;
          created_by = actor;
        }
          ∷ [];
  })

  -- `create_invitation`; a role outside ROLE_CAPABILITIES is no `Role`
  unfoldable pub create_invitation :
      String → ℕ → ℕ → String → Role → Option String → ℕ → Action String
  create_invitation token now at player role actor lifetime = transaction do
    identity ← resolve_identity player
    insert_invitation token identity role actor now lifetime
    audit at actor "auth.invitation.created" (some identity) success
    pure token

  abbrev pub pending_for_owner : ℕ → Invitation → Bool
  pending_for_owner now i = is_owner i.role && not (is_some i.used_at) && ltb now i.expires_at

  unfoldable pub bootstrap : String → ℕ → ℕ → String → Action String
  bootstrap token now at player = transaction do
    owners ← gets (λ db. active_owners db.accounts)
    raise_if (ltb 0 owners) already_owned
    pending ← gets (λ db. any (pending_for_owner now) db.invitations)
    raise_if pending pending_owner
    identity ← resolve_identity player
    insert_invitation token identity Role.owner none now 1800
    audit at none "auth.invitation.created" (some identity) success
    pure token

  -- The role of an active account, or the refusal of `create_recovery`.
  abbrev pub active_role : Option Account → Action Role
  active_role none = raise no_active_account
  active_role (some a) = if is_active a.status then pure a.role else raise no_active_account

  unfoldable pub create_recovery : String → ℕ → ℕ → String → ℕ → Action (String × Role)
  create_recovery token now at player lifetime = do
    found ← transaction do
      identity ← resolve_identity player
      account ← gets (λ db. lookup identity db.accounts)
      role ← active_role account
      pure {A = String × Role} (identity, role)
    made ← create_invitation token now at player found.1 (some found.0) lifetime
    pure {A = String × Role} (made, found.1)

  -- `_public_user` of the rows that `_create_session` joins
  abbrev pub public_user : String → Option Profile → Option Account → Action User
  public_user identity (some p) (some a) = pure (record {
    identity = identity;
    name = p.current_name;
    role = a.role;
    capabilities = capabilities a.role;
  })
  public_user identity _ _ = raise missing_row

  abbrev pub find_profile : String → List Profile → Option Profile
  find_profile identity = find (λ p. str_eq p.identity identity)

  abbrev pub new_session : String → String → ℕ → Session
  new_session token identity now =
      let absolute = now + seconds c.absolute_seconds in
      record {
        token_hash = c.token_hash token;
        identity = identity;
        created_at = now;
        last_seen_at = now;
        idle_expires_at = min (now + seconds c.idle_seconds) absolute;
        absolute_expires_at = absolute;
        revoked_at = none;
      }

  -- `_create_session`
  unfoldable pub create_session : String → String → ℕ → Action (String × User)
  create_session token identity now = do
    modify (λ db. record db { sessions = db.sessions ++ new_session token identity now ∷ [] })
    profile ← gets (λ db. find_profile identity db.profiles)
    account ← gets (λ db. lookup identity db.accounts)
    user ← public_user identity profile account
    pure {A = String × User} (token, user)

  -- The invitation that a claim may use: not used, and not expired.
  abbrev pub claimable : ℕ → Option Invitation → Option Invitation
  claimable now none = none
  claimable now (some i) = if is_some i.used_at || ltb i.expires_at now then none else some i

  -- Whether the claim would take the role from the last active owner.
  abbrev pub demotes_last_owner : Option Account → Role → ℕ → Bool
  demotes_last_owner none role owners = false
  demotes_last_owner (some a) role owners = owns a && not (is_owner role) && leb owners 1

  -- The part of `claim` after a refusal of the invitation: the audit entry and the exception.
  abbrev pub deny_claim : ℕ → String → Option Invitation → Action Invitation
  deny_claim at identity (some i) = pure i
  deny_claim at identity none =
      audit at (some identity) "auth.claim" (some identity) denied >> raise invalid_invitation

  abbrev pub claim_account : Role → String → ℕ → Account → Account
  claim_account role password_hash now a = record a {
    role = role;
    status = Status.active;
    password_hash = some password_hash;
    updated_at = now;
  }

  -- `claim` from the check of the current account on
  unfoldable pub accept_claim :
      String → String → ℕ → ℕ → String → String → Invitation → Action (String × User)
  accept_claim session_token password_hash now at token identity invitation = do
    current ← gets (λ db. lookup identity db.accounts)
    owners ← gets (λ db. active_owners db.accounts)
    raise_if (demotes_last_owner current invitation.role owners) last_owner
    modify (λ db. record db {
      invitations =
          update_where (λ i. str_eq i.token_hash (c.token_hash token))
            (λ i. record i { used_at = some now }) db.invitations;
      accounts =
          update_account identity (claim_account invitation.role password_hash now) db.accounts;
    })
    audit at (some identity) "auth.claim" (some identity) success
    create_session session_token identity now

  -- the `SELECT` of the invitation by its token and its player
  abbrev pub find_invitation : String → String → List Invitation → Option Invitation
  find_invitation token identity =
      find (λ i. str_eq i.token_hash (c.token_hash token) && str_eq i.identity identity)

  -- the block of `claim` under `_connect`
  unfoldable pub try_claim : String → String → ℕ → ℕ → String → String → Action (String × User)
  try_claim session_token password_hash now at player token = do
    identity ← resolve_identity player
    row ← gets (λ db. find_invitation token identity db.invitations)
    invitation ← deny_claim at identity (claimable now row)
    accept_claim session_token password_hash now at token identity invitation

  unfoldable pub claim : String → String → ℕ → ℕ → String → String → String → Action (String × User)
  claim session_token password_hash now at player token password = do
    validate_password password
    transaction (try_claim session_token password_hash now at player token)

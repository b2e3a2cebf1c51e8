-- ===== src/Auth/Tables.antt =====
-- auth/service.py: the rows that the service reads and writes, and its roles.
-- A time is a number of microseconds. The primary key of `panel_accounts` is the identity.
use craftcontrol.Base.{
  ℕ, ◌+◌, ◌*◌, Bool, true, false, Option, none, some, List, [], ◌∷◌, String, ltb, ◌&&◌, ◌||◌,
  if◌then◌else◌, str_eq, any,
}
unfoldable pub use craftcontrol.Base.Rows.{update_where, delete_where, count_where}
use craftcontrol.Base.Dict.{Dict, lookup, insert}

pub data Role : Type 0 where
  viewer operator owner : Role

pub data Status : Type 0 where
  invited active suspended : Status

-- ROLE_CAPABILITIES, sorted as `_public_user` gives them
unfoldable pub capabilities : Role → List String
capabilities viewer = "server.read" ∷ []
capabilities operator =
    "players.manage_permissions" ∷ "server.configure" ∷ "server.lifecycle.restart"
    ∷ "server.lifecycle.start" ∷ "server.read" ∷ "world.manage" ∷ []
capabilities owner = "*" ∷ []

pub record Account : Type 0 where
  pub role : Role
  pub status : Status
  pub password_hash : Option String
  pub created_at : ℕ
  pub updated_at : ℕ

pub record Invitation : Type 0 where
  pub token_hash : String
  pub identity : String
  pub role : Role
  pub created_at : ℕ
  pub expires_at : ℕ
  pub used_at : Option ℕ
  pub created_by : Option String

pub record Session : Type 0 where
  pub token_hash : String
  pub identity : String
  pub created_at : ℕ
  pub last_seen_at : ℕ
  pub idle_expires_at : ℕ
  pub absolute_expires_at : ℕ
  pub revoked_at : Option ℕ

pub record Attempt : Type 0 where
  pub login_key : String
  pub occurred_at : ℕ
  pub successful : Bool

pub data AuditResult : Type 0 where
  success denied failure : AuditResult

pub record AuditEntry : Type 0 where
  pub occurred_at : ℕ
  pub actor : Option String
  pub action : String
  pub target : Option String
  pub result : AuditResult

pub record Profile : Type 0 where
  pub identity : String
  pub current_name : String
  pub aliases : List String
  pub last_seen_at : ℕ

pub record Database : Type 0 where
  pub accounts : Dict Account
  pub invitations : List Invitation
  pub sessions : List Session
  pub attempts : List Attempt
  pub audit_log : List AuditEntry
  pub profiles : List Profile

-- `_public_user`, without the digest of the identity that is its `id`
pub record User : Type 0 where
  pub identity : String
  pub name : String
  pub role : Role
  pub capabilities : List String

-- What the service raises: `ValueError` with one of its texts, and `PermissionError`. A row that
-- is `None` where the code subscripts it raises `TypeError`.
pub data Error : Type 0 where
  unknown_player password_length already_owned pending_owner no_active_account : Error
  invalid_invitation last_owner too_many_attempts invalid_credentials session_not_found : Error
  not_revocable wrong_password no_access missing_row : Error
  permission : String → Error

abbrev pub seconds : ℕ → ℕ
seconds n = n * 1000000

abbrev pub is_active : Status → Bool
is_active active = true
is_active _ = false

abbrev pub is_owner : Role → Bool
is_owner owner = true
is_owner _ = false

-- `role='owner' AND status='active'`
abbrev pub owns : Account → Bool
owns a = is_owner a.role && is_active a.status

-- `UPDATE panel_accounts SET … WHERE identity=?`
unfoldable pub update_account : String → (Account → Account) → Dict Account → Dict Account
unfolding lookup insert
update_account k f d = elim (lookup k d) [ none ↦ d | some a ↦ insert k (f a) d ]

-- `SELECT count(*) FROM panel_accounts WHERE role='owner' AND status='active'`
unfoldable pub active_owners : Dict Account → ℕ
active_owners [] = 0
active_owners ((k, a) ∷ d) = let rest = active_owners d in if owns a then rest + 1 else rest

-- `_resolve_identity`: the profile of that name or alias that was seen last; `lower` is SQLite's
unfoldable pub matches : (String → String) → String → Profile → Bool
matches lower player p =
    str_eq (lower p.current_name) (lower player)
    || any (λ a. str_eq (lower a) (lower player)) p.aliases

unfoldable pub latest : (Profile → Bool) → List Profile → Option Profile
latest p [] = none
latest p (x ∷ xs) =
    let rest = latest p xs in
    if p x
    then elim rest [
      | none ↦ some x
      | some y ↦ if ltb x.last_seen_at y.last_seen_at then some y else some x
    ]
    else rest

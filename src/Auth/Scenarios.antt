-- ===== src/Auth/Scenarios.antt =====
-- Scenarios of the panel's access, at concrete inputs.
use craftcontrol.Base.{◌≡◌, ◌≢◌, refl, none, some, List, [], ◌∷◌, String, arith, str_eq}
use craftcontrol.Base.Dict.{lookup, insert}
use craftcontrol.Auth.Tables.{
  Account, Session, Profile, Database, Role, Status, User, too_many_attempts, invalid_credentials,
  active_owners, latest, matches, capabilities, update_where, count_where, delete_where,
  update_account,
}
use craftcontrol.Auth.Transaction.{ok, err, transaction}
use craftcontrol.Auth.Access.{
  Crypto, verify_password, create_session, resolve_identity, validate_password,
}
use craftcontrol.Auth.Logins.{login, try_login, suspend_access}
use craftcontrol.Auth.Lockout.{LoginCall, login_call, run_logins, lockout_unreachable}
use craftcontrol.Auth.Owners.{
  HasOwner, AccessCall, invite, suspend_player, sign_in, access_calls, access_calls-HasOwner,
}
use craftcontrol.Auth.Sessions.{authenticate, change_password, replace_password, accepts, touch}
use craftcontrol.Auth.Sessions.Admission.{Admission, authenticate-Admission}
use craftcontrol.Auth.Sessions.Revoked.{suspend_access-authenticate}
use craftcontrol.Auth.Sessions.Password.{change_password-authenticate}

-- Digests that are the text itself, and a long password.
abbrev crypto : Crypto
crypto = record {
  token_hash = λ t. t;
  matches_hash = λ p h. str_eq p h;
  lower = λ s. s;
  login_key = λ s. s;
  password_length = λ _. 12;
  idle_seconds = 60;
  absolute_seconds = 600;
}

abbrev account : Role → Account
account role = record {
  role = role;
  status = Status.active;
  password_hash = some "right";
  created_at = 0;
  updated_at = 0;
}

abbrev session : String → String → Session
session token identity = record {
  token_hash = token;
  identity = identity;
  created_at = 0;
  last_seen_at = 0;
  idle_expires_at = 60;
  absolute_expires_at = 600;
  revoked_at = none;
}

abbrev profile : String → String → Profile
profile identity name = record {
  identity = identity;
  current_name = name;
  aliases = [];
  last_seen_at = 0;
}

-- An owner and an operator, each with a session of their own.
abbrev database : Database
database = record {
  accounts = ("1", account Role.owner) ∷ ("2", account Role.operator) ∷ [];
  invitations = [];
  sessions = session "t1" "1" ∷ session "t2" "2" ∷ [];
  attempts = [];
  audit_log = [];
  profiles = profile "1" "ana" ∷ profile "2" "bob" ∷ [];
}

abbrev wrong : LoginCall
wrong = record { token = "s"; now = 5; at = 5; player = "ana"; password = "guess" }

abbrev bob : User
bob = record {
  identity = "2";
  name = "bob";
  role = Role.operator;
  capabilities = capabilities Role.operator;
}

-- Six failed logins, then a seventh.
lockout_unreachable_example :
    (login_call crypto wrong
      (run_logins crypto (wrong ∷ wrong ∷ wrong ∷ wrong ∷ wrong ∷ wrong ∷ []) database)).0
    ≢ err too_many_attempts
lockout_unreachable_example =
    lockout_unreachable crypto (wrong ∷ wrong ∷ wrong ∷ wrong ∷ wrong ∷ wrong ∷ []) wrong database
      tt

wrong_refused : (login_call crypto wrong database).0 ≡ err invalid_credentials
unfolding login try_login transaction latest matches lookup verify_password count_where delete_where
wrong_refused = refl

abbrev history : List AccessCall
history =
    invite "i" 10 11 "bob" Role.viewer (some "1") 600
    ∷ sign_in "s" 12 13 "ana" "right"
    ∷ suspend_player 14 15 "ana" "2"
    ∷ []

access_calls-HasOwner_example : HasOwner (access_calls crypto history database)
unfolding active_owners
access_calls-HasOwner_example = access_calls-HasOwner crypto history database (omega arith)

bob_admitted : (authenticate crypto (some "t2") 20 database).0 ≡ ok (some bob)
unfolding authenticate transaction lookup accepts touch
bob_admitted = refl

authenticate-Admission_example : Admission crypto "t2" 20 bob database
authenticate-Admission_example = authenticate-Admission crypto "t2" 20 bob database bob_admitted

bob_suspended : (suspend_access crypto 30 31 "bob" "1" database).0 ≡ ok "2"
unfolding suspend_access resolve_identity transaction latest matches lookup active_owners
bob_suspended = refl

abbrev ana : User
ana = record {
  identity = "1";
  name = "ana";
  role = Role.owner;
  capabilities = capabilities Role.owner;
}

ana_admitted :
    (authenticate crypto (some "t1") 40 (suspend_access crypto 30 31 "bob" "1" database).1).0
    ≡ ok (some ana)
unfolding suspend_access resolve_identity transaction latest matches lookup active_owners
    authenticate accepts touch update_account update_where insert
ana_admitted = refl

-- The owner is still admitted, as no one else than the owner.
suspend_access-authenticate_example : ana.identity ≢ "2"
suspend_access-authenticate_example =
    suspend_access-authenticate crypto 30 31 "bob" "1" "2" database "t1" 40 ana bob_suspended
      ana_admitted

password_changed :
    (change_password crypto "t3" "new" 30 31 "t2" "right" "new" database).0 ≡ ok ("t3", bob)
unfolding change_password validate_password verify_password replace_password create_session
    transaction lookup update_account update_where insert
password_changed = refl

change_password-authenticate_example :
    (authenticate crypto
      (some "t2")
      40
      (change_password crypto "t3" "new" 30 31 "t2" "right" "new" database).1).0
    ≢ ok (some bob)
change_password-authenticate_example =
    change_password-authenticate crypto "t3" "new" "t2" "right" "new" 30 31 40 database ("t3", bob)
      bob password_changed

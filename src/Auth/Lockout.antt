-- ===== src/Auth/Lockout.antt =====
-- auth/service.py: the limit on failed logins, which the rollback of a refused login undoes.
use craftcontrol.Base.{
  ℕ, ◌≡◌, ◌≢◌, refl, Bool, true, false, Option, none, some, List, [], ◌∷◌, String, arith, All,
  All-append, Bool-cases, inl, inr,
}
use craftcontrol.Auth.Tables.{
  Attempt, Database, User, Error, too_many_attempts, count_where, delete_where, matches, latest,
}
use craftcontrol.Auth.Transaction.{
  Action, ok, err, transaction_err, transaction_result, transaction_keeps,
}
use craftcontrol.Auth.Access.{Crypto, create_session}
use craftcontrol.Auth.Logins.{
  login, try_login, recent_failure, settle_login, valid_login, account_of, resolved, record_attempt,
}

-- No failed attempt is on record.
abbrev pub NoneFailed : List Attempt → Type 0
NoneFailed = All (λ a. a.successful ≡ true)

count_where-NoneFailed :
    (c : Crypto) (key : String) (now : ℕ) (ts : List Attempt)
    → NoneFailed ts
    → count_where (recent_failure c key now) ts ≡ 0
unfolding count_where
count_where-NoneFailed c key now [] h = refl
count_where-NoneFailed c key now (a ∷ ts) h =
    ground (arith, count_where-NoneFailed c key now ts h.1, h.0)

delete_where-NoneFailed :
    (p : Attempt → Bool) (ts : List Attempt) → NoneFailed ts → NoneFailed (delete_where p ts)
unfolding delete_where
delete_where-NoneFailed p [] h = tt
delete_where-NoneFailed p (a ∷ ts) h = elim (Bool-cases (p a)) [
  | inl d ↦ rw d (delete_where-NoneFailed p ts h.1)
  | inr k ↦ rw k (h.0, delete_where-NoneFailed p ts h.1)
]

module _ (c : Crypto) where
  attempts-create_session :
      (token identity : String) (now : ℕ) (db : Database)
      → (create_session c token identity now db).1.attempts ≡ db.attempts
  unfolding create_session
  attempts-create_session token identity now db = ground arith

  -- What a login that succeeds has recorded: an attempt that is marked ts successful.
  attempts-settle_login :
      (token : String) (now at : ℕ) (identity : Option String) (valid : Bool) (db : Database)
      {r : String × User}
      → (settle_login c token now at identity valid db).0 ≡ ok r
      → (valid ≡ true) × ((settle_login c token now at identity valid db).1.attempts ≡ db.attempts)
  attempts-settle_login token now at (some i) true db h =
      (refl, attempts-create_session token i now _)
  attempts-settle_login token now at none true db h = cc
  attempts-settle_login token now at none false db h = cc
  attempts-settle_login token now at (some i) false db h = cc

  -- The two ways that `try_login` ends: refused for its failures, or settled by the credentials.
  try_login_below :
      (token : String) (now at : ℕ) (player password : String) (db : Database)
      → NoneFailed db.attempts
      → let key = c.login_key player in
        let identity = resolved c (latest (matches c.lower player) db.profiles) in
        let valid = valid_login c password (account_of c identity db.accounts) in
        try_login c token now at player password db
        ≡ settle_login c token now at identity valid (record_attempt c key now valid db)
  unfolding try_login
  try_login_below token now at player password db h =
      rw (count_where-NoneFailed c (c.login_key player) now db.attempts h)

  settle_login_error :
      (token : String) (now at : ℕ) (identity : Option String) (valid : Bool) (db : Database)
      → (settle_login c token now at identity valid db).0 ≢ err too_many_attempts
  unfolding create_session
  settle_login_error token now at (some i) true db h = ground arith
  settle_login_error token now at none true db h = cc
  settle_login_error token now at none false db h = cc
  settle_login_error token now at (some i) false db h = cc

  -- One login at a database without failed attempts is not refused for its failures, and leaves
  -- none behind, whatever the password.
  login_one :
      (token : String) (now at : ℕ) (player password : String) (db : Database)
      → NoneFailed db.attempts
      → ((login c token now at player password db).0 ≢ err too_many_attempts)
        × NoneFailed (login c token now at player password db).1.attempts
  unfolding login
  login_one token now at player password db h =
      let below = try_login_below token now at player password db h in
      let m = try_login c token now at player password in
      let key = c.login_key player in
      let identity = resolved c (latest (matches c.lower player) db.profiles) in
      let valid = valid_login c password (account_of c identity db.accounts) in
      let db' = record_attempt c key now valid db in
      (
        λ e.
            settle_login_error token now at identity valid db'
              (rw (transaction_result m db, below) at e),
        transaction_keeps (λ d. NoneFailed d.attempts) m db h
            (λ a p.
              let (good, same) =
                attempts-settle_login token now at identity valid db' (rw below at p) in
              rw below (
                rw (same, good)
                  (delete_where-NoneFailed _ _ (All-append _ db.attempts _ h (refl, tt))))),
      )

-- A call of `login`: the new token, the readings of the clock, the name and the password.
pub record LoginCall : Type 0 where
  pub token : String
  pub now : ℕ
  pub at : ℕ
  pub player : String
  pub password : String

abbrev pub login_call : Crypto → LoginCall → Action (String × User)
login_call c r = login c r.token r.now r.at r.player r.password

unfoldable pub run_logins : Crypto → List LoginCall → Database → Database
run_logins c [] db = db
run_logins c (r ∷ rs) db = run_logins c rs (login_call c r db).1

run_logins-NoneFailed :
    (c : Crypto) (rs : List LoginCall) (db : Database)
    → NoneFailed db.attempts
    → NoneFailed (run_logins c rs db).attempts
unfolding run_logins
run_logins-NoneFailed c [] db h = h
run_logins-NoneFailed c (r ∷ rs) db h =
    run_logins-NoneFailed c rs (login_call c r db).1
      (login_one c r.token r.now r.at r.player r.password db h).1

-- From a database with no failed attempt on record, no sequence of logins, however many of them
-- fail and at whatever times, makes a later login fail with "too many login attempts": the row of
-- a failed attempt is rolled back by the exception that reports the failure.
pub lockout_unreachable :
    (c : Crypto) (rs : List LoginCall) (r : LoginCall) (db : Database)
    → NoneFailed db.attempts
    → (login_call c r (run_logins c rs db)).0 ≢ err too_many_attempts
lockout_unreachable c rs r db h =
    (login_one c r.token r.now r.at r.player r.password (run_logins c rs db)
      (run_logins-NoneFailed c rs db h)).0

-- A login that raises, for whatever reason, leaves the database as it was: neither the attempt nor
-- the audit entry of a refused login is kept.
pub login_refused_unrecorded :
    (c : Crypto) (r : LoginCall) (db : Database) (e : Error)
    → (login_call c r db).0 ≡ err e
    → (login_call c r db).1 ≡ db
unfolding login
login_refused_unrecorded c r db e h =
    transaction_err (try_login c r.token r.now r.at r.player r.password) db e h

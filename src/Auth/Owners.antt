-- ===== src/Auth/Owners.antt =====
-- auth/service.py: the last active owner keeps its access, where the calls do not overlap.
use craftcontrol.Base.{
  ℕ, ◌+◌, ◌≡◌, ◌<◌, refl, Bool, true, false, Option, none, some, List, [], ◌∷◌, String, arith, leb,
  ◌&&◌, ◌||◌, ltb, if◌then◌else◌, Bool-cases, Option-cases, inl, inr, ◌⊎◌,
}
use craftcontrol.Base.Dict.{Dict, lookup, insert}
use craftcontrol.Auth.Tables.{
  Role, Status, Account, Invitation, Database, owns, is_owner, active_owners, update_account,
  matches, latest, count_where, failure,
}
use craftcontrol.Auth.Transaction.{Result, ok, err, transaction, transaction_keeps, Result-cases}
use craftcontrol.Auth.Access.{
  Crypto, resolve_identity, create_invitation, insert_invitation, invite_account, claim,
  create_session, demotes_last_owner, claim_account, accept_claim, try_claim, find_invitation,
  claimable, validate_password, audit,
}
use craftcontrol.Auth.Logins.{
  suspend, suspend_access, after_suspend, login, try_login, settle_login, recent_failure,
}

abbrev pub HasOwner : Database → Type 0
HasOwner db = 0 < active_owners db.accounts

abbrev weight : Account → ℕ
weight a = if owns a then 1 else 0

abbrev weight_of : Option Account → ℕ
weight_of none = 0
weight_of (some a) = weight a

-- Replacing the account of a key moves the number of active owners by the difference.
active_owners-insert :
    (k : String) (a : Account) (d : Dict Account)
    → active_owners (insert k a d) + weight_of (lookup k d) ≡ active_owners d + weight a
unfolding active_owners lookup insert
active_owners-insert k a [] = ground arith
active_owners-insert k a ((j, b) ∷ d) = ground (arith, active_owners-insert k a d)

-- Inviting keeps every active account what it was.
active_owners-invite :
    (k : String) (role : Role) (now : ℕ) (d : Dict Account)
    → active_owners (insert k (invite_account role now (lookup k d)) d) ≡ active_owners d
unfolding invite_account
active_owners-invite k role now d = elim (Option-cases (lookup k d)) [
  | inl p ↦ ground (arith, active_owners-insert k (invite_account role now (lookup k d)) d)
  | inr (a, p) ↦ ground (arith, active_owners-insert k (invite_account role now (lookup k d)) d)
]

-- An update of one account that is guarded by `demotes` keeps an owner.
active_owners-update :
    (k : String) (f : Account → Account) (d : Dict Account)
    → 0 < active_owners d
    → ((a : Account)
        → lookup k d ≡ some a
        → (owns (f a) ≡ true) ⊎ ((owns a ≡ false) ⊎ (leb (active_owners d) 1 ≡ false)))
    → 0 < active_owners (update_account k f d)
unfolding update_account
active_owners-update k f d h g = elim (Option-cases (lookup k d)) [
  | inl p ↦ rw (p, update_account) h
  | inr (a, p) ↦
      let e = active_owners-insert k (f a) d in
      rw (p, update_account)
        (elim (g a p) [
          | inl x ↦ ground (arith, e)
          | inr y ↦ elim y [ inl x ↦ ground (arith, e) | inr x ↦ ground (arith, e) ]
        ])
]

-- What the guard of `suspend` lets through.
not_last :
    (a : Account) (owners : ℕ)
    → (owns a && leb owners 1) ≡ false
    → (owns a ≡ false) ⊎ (leb owners 1 ≡ false)
not_last a owners h = elim (Bool-cases (owns a)) [ inr n ↦ inl n | inl y ↦ inr (ground arith) ]

module _ (c : Crypto) where
  -- What the guard of `claim` lets through.
  keeps_owner :
      (a : Account) (role : Role) (owners : ℕ)
      → demotes_last_owner c (some a) role owners ≡ false
      → (is_owner role && true ≡ true) ⊎ ((owns a ≡ false) ⊎ (leb owners 1 ≡ false))
  keeps_owner a role owners h = elim (Bool-cases (is_owner role)) [
    | inl y ↦ inl (rw y)
    | inr n ↦ inr (not_last a owners (ground arith))
  ]

  create_invitation-HasOwner :
      (token : String) (now at : ℕ) (player : String) (role : Role) (actor : Option String)
      (lifetime : ℕ) (db : Database)
      → HasOwner db
      → HasOwner (create_invitation c token now at player role actor lifetime db).1
  unfolding create_invitation resolve_identity insert_invitation
  create_invitation-HasOwner token now at player role actor lifetime db h =
      transaction_keeps HasOwner _ db h (λ a p.
        elim (Option-cases (latest (matches c.lower player) db.profiles)) [
          | inl q ↦ rw q h
          | inr (f, q) ↦ rw q (rw (active_owners-invite f.identity role now db.accounts) h)
        ])

  accounts-create_session :
      (token identity : String) (now : ℕ) (db : Database)
      → (create_session c token identity now db).1.accounts ≡ db.accounts
  unfolding create_session
  accounts-create_session token identity now db = ground arith

  accept_claim-HasOwner :
      (session_token hash : String) (now at : ℕ) (token identity : String) (invitation : Invitation)
      (db : Database)
      → HasOwner db
      → HasOwner (accept_claim c session_token hash now at token identity invitation db).1
  unfolding accept_claim
  accept_claim-HasOwner session_token hash now at token identity invitation db h =
      let owners = active_owners db.accounts in
      elim (Bool-cases
        (demotes_last_owner c (lookup identity db.accounts) invitation.role owners)) [
          | inl bad ↦ rw (bad, accept_claim) h
          | inr good ↦
              rw (good, accept_claim)
                (rw (accounts-create_session session_token identity now _) (
                  active_owners-update identity (claim_account c invitation.role hash now)
                    db.accounts h (λ a p. keeps_owner a invitation.role owners (rw p at good))))
        ]

  claim-HasOwner :
      (session_token hash : String) (now at : ℕ) (player token password : String) (db : Database)
      → HasOwner db
      → HasOwner (claim c session_token hash now at player token password db).1
  unfolding claim validate_password try_claim resolve_identity
  claim-HasOwner session_token hash now at player token password db h =
      elim (Bool-cases
        (ltb (c.password_length password) 8 || ltb 128 (c.password_length password))) [
          | inl bad ↦ rw bad h
          | inr good ↦ rw good (
              transaction_keeps HasOwner (try_claim c session_token hash now at player token) db h
                (λ r e. elim (Option-cases (latest (matches c.lower player) db.profiles)) [
                  | inl q ↦ rw q h
                  | inr (f, q) ↦
                      elim (Option-cases
                        (claimable c now (find_invitation c token f.identity db.invitations))) [
                          | inl n ↦ rw q (rw n h)
                          | inr (i, n) ↦ rw q (
                              rw n (
                                accept_claim-HasOwner session_token hash now at token f.identity i
                                  db h))
                        ]
                ]))
        ]

  suspend_access-HasOwner :
      (now at : ℕ) (player actor : String) (db : Database)
      → HasOwner db
      → HasOwner (suspend_access c now at player actor db).1
  unfolding suspend_access resolve_identity
  suspend_access-HasOwner now at player actor db h = transaction_keeps HasOwner _ db h (λ r e.
      elim (Option-cases (latest (matches c.lower player) db.profiles)) [
        | inl q ↦ rw q h
        | inr (f, q) ↦ elim (Option-cases (lookup f.identity db.accounts)) [
          | inl n ↦ rw q (rw n h)
          | inr (a, s) ↦ elim (Bool-cases (owns a && leb (active_owners db.accounts) 1)) [
            | inl bad ↦ rw q (rw s (rw bad h))
            | inr good ↦ rw q (
                rw s (
                  rw good (
                    active_owners-update f.identity
                      (λ b. record b { status = Status.suspended; updated_at = now }) db.accounts h
                      (λ b t.
                        inr (not_last b (active_owners db.accounts) (ground (arith, s, t)))))))
          ]
        ]
      ])

  accounts-settle_login :
      (token : String) (now at : ℕ) (identity : Option String) (valid : Bool) (db : Database)
      → (settle_login c token now at identity valid db).1.accounts ≡ db.accounts
  accounts-settle_login token now at (some i) true db = accounts-create_session token i now _
  accounts-settle_login token now at none true db = refl
  accounts-settle_login token now at none false db = refl
  accounts-settle_login token now at (some i) false db = refl

  login-HasOwner :
      (token : String) (now at : ℕ) (player password : String) (db : Database)
      → HasOwner db
      → HasOwner (login c token now at player password db).1
  unfolding login try_login
  login-HasOwner token now at player password db h =
      transaction_keeps HasOwner (try_login c token now at player password) db h (λ r e.
        elim (Bool-cases
          (leb 5 (count_where (recent_failure c (c.login_key player) now) db.attempts))) [
            | inl bad ↦ rw bad h
            | inr good ↦ rw good (rw (accounts-settle_login token now at _ _ _) h)
          ])

  after_suspend-HasOwner :
      (at : ℕ) (actor : String) (identity : Option String) (r : Result String) (db : Database)
      → HasOwner db
      → HasOwner (after_suspend c at actor identity r db).1
  after_suspend-HasOwner at actor identity (ok x) db h = h
  after_suspend-HasOwner at actor identity (err e) db h =
      elim (Result-cases
        (transaction (audit at (some actor) "auth.access.suspended" identity failure) db).0) [
          | inl (x, p) ↦ rw p (transaction_keeps HasOwner _ db h (λ _ _. h))
          | inr (x, p) ↦ rw p (transaction_keeps HasOwner _ db h (λ _ _. h))
        ]

-- A call that changes the access of players, with its readings of the clock and its random texts.
pub data AccessCall : Type 0 where
  invite :
      (token : String) (now at : ℕ) (player : String) (role : Role) (actor : Option String)
      (lifetime : ℕ)
      → AccessCall
  accept : (session_token hash : String) (now at : ℕ) (player token password : String) → AccessCall
  sign_in : (token : String) (now at : ℕ) (player password : String) → AccessCall
  suspend_player : (now at : ℕ) (player actor : String) → AccessCall

-- The database after the call, whether it returns or raises.
unfoldable pub access_call : Crypto → AccessCall → Database → Database
access_call c (invite token now at player role actor lifetime) db =
    (create_invitation c token now at player role actor lifetime db).1
access_call c (accept session_token hash now at player token password) db =
    (claim c session_token hash now at player token password db).1
access_call c (sign_in token now at player password) db =
    (login c token now at player password db).1
access_call c (suspend_player now at player actor) db = (suspend c now at player actor db).1

unfoldable pub access_calls : Crypto → List AccessCall → Database → Database
access_calls c [] db = db
access_calls c (r ∷ rs) db = access_calls c rs (access_call c r db)

access_call-HasOwner :
    (c : Crypto) (r : AccessCall) (db : Database) → HasOwner db → HasOwner (access_call c r db)
unfolding access_call suspend
access_call-HasOwner c (invite token now at player role actor lifetime) db h =
    create_invitation-HasOwner c token now at player role actor lifetime db h
access_call-HasOwner c (accept session_token hash now at player token password) db h =
    claim-HasOwner c session_token hash now at player token password db h
access_call-HasOwner c (sign_in token now at player password) db h =
    login-HasOwner c token now at player password db h
access_call-HasOwner c (suspend_player now at player actor) db h =
    after_suspend-HasOwner c at actor _ (suspend_access c now at player actor db).0 _
      (suspend_access-HasOwner c now at player actor db h)

-- Once an active owner has claimed access, no sequence of invitations, claims, logins and
-- suspensions, each of which ends before the next begins, at whatever times and whether they are
-- refused or not, leaves the panel without an active owner.
pub access_calls-HasOwner :
    (c : Crypto) (rs : List AccessCall) (db : Database)
    → HasOwner db
    → HasOwner (access_calls c rs db)
unfolding access_calls
access_calls-HasOwner c [] db h = h
access_calls-HasOwner c (r ∷ rs) db h =
    access_calls-HasOwner c rs (access_call c r db) (access_call-HasOwner c r db h)

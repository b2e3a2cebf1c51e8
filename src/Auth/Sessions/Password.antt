-- ===== src/Auth/Sessions/Password.antt =====
-- auth/service.py: the sessions that a change of the password ends.
use craftcontrol.Auth.Sessions.Admission.{find-update_where, IsRevoked, authenticate_revoked}
use craftcontrol.Base.{
  ℕ, ◌≡◌, ◌≢◌, refl, Bool, true, false, Option, none, some, List, [], ◌∷◌, ◌++◌, String, ltb, not,
  ◌||◌, ◌&&◌, if◌then◌else◌, str_eq, find, is_some, Bool-cases, Option-cases, inl, inr, arith,
  str_eq_refl,
}
use craftcontrol.Base.Dict.{lookup}
use craftcontrol.Auth.Tables.{Session, Database, User, is_active}
use craftcontrol.Auth.Transaction.{ok, transaction, transaction_ensures}
use craftcontrol.Auth.Access.{
  Crypto, verify_password, validate_password, create_session, new_session,
}
use craftcontrol.Auth.Sessions.{
  has_token, authenticate, replace_password, change_password, change_for, password_row, usable,
}

find-append :
    (p : Session → Bool) (ss ts : List Session)
    → find p (ss ++ ts) ≡ elim (find p ss) [ none ↦ find p ts | some s ↦ some s ]
find-append p [] ts = refl
find-append p (s ∷ ss) ts = elim (Bool-cases (p s)) [
  | inl y ↦ rw y refl
  | inr n ↦ rw n (find-append p ss ts)
]

sessions-create_session :
    (c : Crypto) (token identity : String) (now : ℕ) (db : Database)
    → (create_session c token identity now db).1.sessions
      ≡ db.sessions ++ new_session c token identity now ∷ []
unfolding create_session
sessions-create_session c token identity now db = ground arith

abbrev not_revoked : String → Session → Bool
not_revoked identity s = str_eq s.identity identity && not false && not (is_some s.revoked_at)

revoke_one :
    (identity : String) (now : ℕ) (s : Session)
    → s.identity ≡ identity
    → is_some (if not_revoked identity s then record s { revoked_at = some now } else s).revoked_at
      ≡ true
revoke_one identity now s i = elim (Bool-cases (is_some s.revoked_at)) [
  | inl y ↦ ground (arith, y)
  | inr n ↦ rw (i, str_eq_refl identity, n) refl
]

-- The session that had a token when the password was replaced is revoked.
replace_password-IsRevoked :
    (c : Crypto) (new_token hash token identity : String) (now at : ℕ) (db : Database) (s : Session)
    (r : String × User)
    → find (has_token c token) db.sessions ≡ some s
    → s.identity ≡ identity
    → (replace_password c new_token hash now at identity db).0 ≡ ok r
    → IsRevoked
        (find (has_token c token) (replace_password c new_token hash now at identity db).1.sessions)
unfolding replace_password
replace_password-IsRevoked c new_token hash token identity now at db s r f i h =
    transaction_ensures (λ _ d. IsRevoked (find (has_token c token) d.sessions)) _ db
      (λ r e. rw (sessions-create_session c new_token identity now _) (
        rw (find-append (has_token c token) _ _) (
          rw
            (
              find-update_where (has_token c token) (not_revoked identity)
                  (λ s. record s { revoked_at = some now }) db.sessions (λ s. refl),
              f,
            )
            (revoke_one identity now s i))))
      r h

change_row-IsRevoked :
    (c : Crypto) (new_token hash token current : String) (now at : ℕ) (db : Database)
    (r : String × User) (o : Option Session)
    → find (has_token c token) db.sessions ≡ o
    → (change_for c new_token hash now at current (password_row c now db o) db).0 ≡ ok r
    → IsRevoked (
        find
          (has_token c token)
          (change_for c new_token hash now at current (password_row c now db o) db).1.sessions)
unfolding transaction
change_row-IsRevoked c new_token hash token current now at db r none f h = cc
change_row-IsRevoked c new_token hash token current now at db r (some s) f h =
    elim (Bool-cases (usable now s)) [
      | inr bad ↦ ground (arith, rw bad at h)
      | inl fine ↦ elim (Option-cases (lookup s.identity db.accounts)) [
        | inl n ↦ ground (arith, rw (fine, n) at h)
        | inr (a, n) ↦
            elim (Bool-cases (is_active a.status && verify_password c current a.password_hash)) [
              | inr bad ↦ ground (arith, rw (fine, n, bad) at h)
              | inl good ↦
                  rw (fine, n, good)
                    (replace_password-IsRevoked c new_token hash token s.identity now at db s r f
                      refl (rw (fine, n, good) at h))
            ]
      ]
    ]

abbrev bad_length : Crypto → String → Bool
bad_length c p = ltb (c.password_length p) 8 || ltb 128 (c.password_length p)

change_password-IsRevoked :
    (c : Crypto) (new_token hash token current new : String) (now at : ℕ) (db : Database)
    (r : String × User)
    → (change_password c new_token hash now at token current new db).0 ≡ ok r
    → IsRevoked (
        find
          (has_token c token)
          (change_password c new_token hash now at token current new db).1.sessions)
unfolding change_password validate_password transaction
change_password-IsRevoked c new_token hash token current new now at db r h =
    elim (Bool-cases (bad_length c current)) [
      | inl bad ↦ ground (arith, rw bad at h)
      | inr good ↦ elim (Bool-cases (bad_length c new)) [
        | inl bad ↦ ground (arith, rw (good, bad) at h)
        | inr fine ↦
            rw (good, fine)
              (change_row-IsRevoked c new_token hash token current now at db r
                (find (has_token c token) db.sessions) refl (rw (good, fine) at h))
      ]
    ]

-- In the database that a successful change of the password leaves, the token that it was asked with
-- authenticates no one, at any time.
pub change_password-authenticate :
    (c : Crypto) (new_token hash token current new : String) (now at later : ℕ) (db : Database)
    (r : String × User) (user : User)
    → (change_password c new_token hash now at token current new db).0 ≡ ok r
    → (authenticate c
        (some token)
        later
        (change_password c new_token hash now at token current new db).1).0
      ≢ ok (some user)
change_password-authenticate c new_token hash token current new now at later db r user h =
    authenticate_revoked c token later user _
      (change_password-IsRevoked c new_token hash token current new now at db r h)

-- ===== src/Auth/Sessions/Revoked.antt =====
-- auth/service.py: the access that a logout or a suspension ends.
use craftcontrol.Auth.Sessions.Admission.{
  some_injective, find-update_where, find_sound, update-IsRevoked, IsRevoked,
  authenticate-Admission, authenticate_revoked,
}
use craftcontrol.Base.{
  ℕ, ◌≡◌, ◌≢◌, refl, sym, false, some, String, leb, ◌&&◌, str_eq, find, Bool-cases, Option-cases,
  inl, inr, arith,
}
use craftcontrol.Base.Dict.{Dict, lookup, lookup-insert_self}
use craftcontrol.Auth.Tables.{
  Status, Account, Session, Database, User, update_account, is_active, latest, matches, owns,
  active_owners,
}
use craftcontrol.Auth.Transaction.{ok, transaction, transaction_ensures}
use craftcontrol.Auth.Access.{Crypto, resolve_identity}
use craftcontrol.Auth.Logins.{suspend_access}
use craftcontrol.Auth.Sessions.{has_token, authenticate, logout}

not_active : (a : Account) → is_active a.status ≡ false → a.status ≢ Status.active
not_active a h e = ground (arith, h, e)

-- A logout revokes the session of its token.
logout-IsRevoked :
    (c : Crypto) (token : String) (now : ℕ) (db : Database)
    → str_eq token "" ≡ false
    → IsRevoked (find (has_token c token) (logout c (some token) now db).1.sessions)
unfolding logout transaction
logout-IsRevoked c token now db h =
    let f : Session → Session = λ s. record s { revoked_at = some now } in
    rw h (
      rw (find-update_where (has_token c token) (has_token c token) f db.sessions (λ s. refl)) (
        update-IsRevoked (has_token c token) f (find (has_token c token) db.sessions)
          (λ s e. rw (find_sound (has_token c token) db.sessions s e) refl)))

-- In the database that a logout with a token leaves, the token authenticates no one, at any time.
pub logout-authenticate :
    (c : Crypto) (token : String) (now later : ℕ) (user : User) (db : Database)
    → (authenticate c (some token) later (logout c (some token) now db).1).0 ≢ ok (some user)
unfolding authenticate
logout-authenticate c token now later user db = elim (Bool-cases (str_eq token "")) [
  | inl e ↦ λ h. ground (arith, rw e at h)
  | inr n ↦
      authenticate_revoked c token later user (logout c (some token) now db).1
        (logout-IsRevoked c token now db n)
]

-- The account of a suspended player is suspended.
abbrev IsSuspended : String → Database → Type 0
IsSuspended i db = (a : Account) → lookup i db.accounts ≡ some a → is_active a.status ≡ false

ok_injective : {x y : String} → ok x ≡ ok y → x ≡ y
ok_injective h = cc

suspended_account :
    (k : String) (now : ℕ) (d : Dict Account) (a : Account)
    → lookup k d ≡ some a
    → (b : Account)
    → lookup k (update_account k (λ b. record b { status = Status.suspended; updated_at = now }) d)
      ≡ some b
    → is_active b.status ≡ false
unfolding update_account
suspended_account k now d a h b t =
    let e = some_injective (rw (h, update_account, lookup-insert_self) at t) in rw (sym e) refl

suspend_access-IsSuspended :
    (c : Crypto) (now at : ℕ) (player actor i : String) (db : Database)
    → (suspend_access c now at player actor db).0 ≡ ok i
    → IsSuspended i (suspend_access c now at player actor db).1
unfolding suspend_access resolve_identity
suspend_access-IsSuspended c now at player actor i db h =
    transaction_ensures IsSuspended _ db
      (λ i e. elim (Option-cases (latest (matches c.lower player) db.profiles)) [
        | inl q ↦ ground (arith, rw q at e)
        | inr (f, q) ↦ elim (Option-cases (lookup f.identity db.accounts)) [
          | inl n ↦ ground (arith, rw (q, n) at e)
          | inr (a, n) ↦ elim (Bool-cases (owns a && leb (active_owners db.accounts) 1)) [
            | inl bad ↦ ground (arith, rw (q, n, bad) at e)
            | inr good ↦
                let same = ok_injective (rw (q, n, good) at e) in
                rw (sym same) (rw (q, n, good) (suspended_account f.identity now db.accounts a n))
          ]
        ]
      ])
      i h

-- In the database that a successful suspension of the player with the identity `i` leaves, no token
-- at all authenticates as `i`, at any time, whatever sessions the player had.
pub suspend_access-authenticate :
    (c : Crypto) (now at : ℕ) (player actor i : String) (db : Database) (token : String) (later : ℕ)
    (user : User)
    → (suspend_access c now at player actor db).0 ≡ ok i
    → (authenticate c (some token) later (suspend_access c now at player actor db).1).0
      ≡ ok (some user)
    → user.identity ≢ i
suspend_access-authenticate c now at player actor i db token later user h e same =
    let w = authenticate-Admission c token later user _ e in
    let opened = rw (sym w.same_identity, same) at w.opened in
    not_active w.account (suspend_access-IsSuspended c now at player actor i db h w.account opened)
      w.active

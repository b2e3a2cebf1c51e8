-- ===== src/Auth/Sessions/Admission.antt =====
-- auth/service.py: what a token must have for `authenticate` to return a user.
use mathlib.Core.Path.{subst}
use craftcontrol.Base.{
  ℕ, ◌+◌, ◌≤◌, ◌≡◌, ◌≢◌, refl, sym, ◌∙◌, Bool, true, Option, none, some, List, [], ◌∷◌, String, leb,
  if◌then◌else◌, str_eq, find, is_some, Bool-cases, Option-cases, inl, inr, arith, ap,
}
use craftcontrol.Base.Dict.{lookup}
use craftcontrol.Auth.Tables.{
  Account, Status, Session, Profile, Database, User, update_where, capabilities,
}
use craftcontrol.Auth.Transaction.{ok, transaction_result}
use craftcontrol.Auth.Access.{Crypto, find_profile}
use craftcontrol.Auth.Sessions.{
  accepts, joined, with_profile, with_account, touch_interval, has_token, touch, admit,
  authenticate,
}

-- An update that keeps what is looked for is an update of what is found.
pub find-update_where :
    (p q : Session → Bool) (f : Session → Session) (ss : List Session)
    → ((s : Session) → p (f s) ≡ p s)
    → find p (update_where q f ss)
      ≡ elim (find p ss) [ none ↦ none | some s ↦ some (if q s then f s else s) ]
unfolding update_where
find-update_where p q f [] h = refl
find-update_where p q f (s ∷ ss) h =
    let e = find-update_where p q f ss h in
    elim (Bool-cases (q s)) [
      | inl y ↦ elim (Bool-cases (p s)) [
        | inl g ↦ rw y (rw (h s) (rw g (rw y refl)))
        | inr g ↦ rw y (rw (h s) (rw g e))
      ]
      | inr n ↦ elim (Bool-cases (p s)) [ inl g ↦ rw n (rw g (rw n refl)) | inr g ↦ rw n (rw g e) ]
    ]

-- The session of a token, if there is one, has been revoked.
abbrev pub IsRevoked : Option Session → Type 0
IsRevoked none = Unit
IsRevoked (some s) = is_some s.revoked_at ≡ true

-- What `authenticate` has found when it returns a user.
pub record Admission (c : Crypto) (token : String) (now : ℕ) (user : User) (db : Database)
    : Type 0 where
  pub session : Session
  pub account : Account
  pub found : find (has_token c token) db.sessions ≡ some session
  pub opened : lookup session.identity db.accounts ≡ some account
  pub active : account.status ≡ Status.active
  pub not_revoked : session.revoked_at ≡ none
  pub not_idle : now ≤ session.idle_expires_at
  pub not_expired : now ≤ session.absolute_expires_at
  pub same_identity : user.identity ≡ session.identity
  pub same_role : user.role ≡ account.role

pub some_injective {ℓ} : {A : Type ℓ} {x y : A} → some x ≡ some y → x ≡ y
some_injective h = cc

-- What a session and an account that are accepted are.
record Usable (now : ℕ) (s : Session) (a : Account) : Type 0 where
  active : a.status ≡ Status.active
  not_revoked : s.revoked_at ≡ none
  not_idle : now ≤ s.idle_expires_at
  not_expired : now ≤ s.absolute_expires_at

accepts-Usable : (now : ℕ) (s : Session) (a : Account) → accepts now s a ≡ true → Usable now s a
unfolding accepts
accepts-Usable now s a h = record {
  active = ground (arith, h);
  not_revoked = ground (arith, h);
  not_idle = ground (arith, h);
  not_expired = ground (arith, h);
}

module _ (c : Crypto) where
  admitted :
      (token : String) (now : ℕ) (s : Session) (a : Account) (p : Profile) (db : Database)
      → accepts now s a ≡ true
      → (admit c token now (some (s, a, p)) db).0
        ≡ ok (
            some (record {
              identity = s.identity;
              name = p.current_name;
              role = a.role;
              capabilities = capabilities a.role;
            }))
  unfolding touch
  admitted token now s a p db y = elim (Bool-cases (leb (s.last_seen_at + touch_interval) now)) [
    | inl t ↦ rw y (rw t refl)
    | inr t ↦ rw y (rw t refl)
  ]

  admit_user :
      (token : String) (now : ℕ) (s : Session) (a : Account) (p : Profile) (user : User)
      (db : Database)
      → (admit c token now (some (s, a, p)) db).0 ≡ ok (some user)
      → (accepts now s a ≡ true) × (user.identity ≡ s.identity) × (user.role ≡ a.role)
  admit_user token now s a p user db h = elim (Bool-cases (accepts now s a)) [
    | inr n ↦ ground (arith, rw n at h)
    | inl y ↦
        let e = sym (admitted token now s a p db y) ∙ h in (y, ground (arith, e), ground (arith, e))
  ]

  with_profile-some :
      (s : Session) (a : Account) (o : Option Profile) (r : Session × Account × Profile)
      → with_profile c s a o ≡ some r
      → (s ≡ r.0) × (a ≡ r.1)
  with_profile-some s a none r h = cc
  with_profile-some s a (some p) r h =
      let e = some_injective h in (ap (λ x. x.0) e, ap (λ x. x.1) e)

  with_account-some :
      (s : Session) (ps : List Profile) (o : Option Account) (r : Session × Account × Profile)
      → with_account c s ps o ≡ some r
      → (s ≡ r.0) × (o ≡ some r.1)
  with_account-some s ps none r h = cc
  with_account-some s ps (some a) r h =
      let (e, f) = with_profile-some s a (find_profile c s.identity ps) r h in (e, ap some f)

  joined-some :
      (db : Database) (o : Option Session) (r : Session × Account × Profile)
      → joined c db o ≡ some r
      → (o ≡ some r.0) × (lookup r.0.identity db.accounts ≡ some r.1)
  joined-some db none r h = cc
  joined-some db (some s) r h =
      let (e, f) = with_account-some s db.profiles (lookup s.identity db.accounts) r h in
      (ap some e, subst (λ x. lookup x.identity db.accounts ≡ some r.1) e f)

  admission :
      (token : String) (now : ℕ) (user : User) (db : Database)
      → (admit c token now (joined c db (find (has_token c token) db.sessions)) db).0
        ≡ ok (some user)
      → Admission c token now user db
  admission token now user db h =
      let o = find (has_token c token) db.sessions in
      elim (Option-cases (joined c db o)) [
        | inl n ↦ ground (arith, rw n at h)
        | inr (r, n) ↦
            let (found, opened) = joined-some db o r n in
            let (y, same_identity, same_role) =
              admit_user token now r.0 r.1 r.2 user db (rw n at h) in
            let accepted = accepts-Usable now r.0 r.1 y in
            record {
              session = r.0;
              account = r.1;
              found = found;
              opened = opened;
              active = accepted.active;
              not_revoked = accepted.not_revoked;
              not_idle = accepted.not_idle;
              not_expired = accepted.not_expired;
              same_identity = same_identity;
              same_role = same_role;
            }
      ]

-- A user that `authenticate` returns for a token is the player of the session of that token, with
-- the role of that player's account, where the session is not revoked and not expired, at rest or
-- absolutely, and the account is active.
pub authenticate-Admission :
    (c : Crypto) (token : String) (now : ℕ) (user : User) (db : Database)
    → (authenticate c (some token) now db).0 ≡ ok (some user)
    → Admission c token now user db
unfolding authenticate
authenticate-Admission c token now user db h = elim (Bool-cases (str_eq token "")) [
  | inl e ↦ ground (arith, rw e at h)
  | inr n ↦ admission c token now user db (sym (transaction_result _ db) ∙ (rw n at h))
]

-- Once the session of a token is revoked, the token authenticates no one, whatever the time.
pub authenticate_revoked :
    (c : Crypto) (token : String) (now : ℕ) (user : User) (db : Database)
    → IsRevoked (find (has_token c token) db.sessions)
    → (authenticate c (some token) now db).0 ≢ ok (some user)
authenticate_revoked c token now user db h e =
    let w = authenticate-Admission c token now user db e in
    revoked_not (rw w.found at h) w.not_revoked
  where
    revoked_not : {o : Option ℕ} → is_some o ≡ true → o ≢ none
    revoked_not h e = ground (arith, h, e)

pub find_sound :
    (p : Session → Bool) (ss : List Session) (s : Session) → find p ss ≡ some s → p s ≡ true
find_sound p [] s h = cc
find_sound p (x ∷ ss) s h = elim (Bool-cases (p x)) [
  | inl y ↦ let e = some_injective (rw y at h) in rw (sym e) y
  | inr n ↦ find_sound p ss s (rw n at h)
]

pub update-IsRevoked :
    (q : Session → Bool) (f : Session → Session) (o : Option Session)
    → ((s : Session) → o ≡ some s → is_some (if q s then f s else s).revoked_at ≡ true)
    → IsRevoked (elim o [ none ↦ none | some s ↦ some (if q s then f s else s) ])
update-IsRevoked q f none h = tt
update-IsRevoked q f (some s) h = h s refl

-- ===== src/Auth/Transaction.antt =====
-- auth/service.py: `_connect`, a transaction that an exception rolls back. The block is one step: what
-- another connection commits between the first reads of a block and its first write, which in the code
-- stand outside of the transaction of SQLite, is left out.
use craftcontrol.Base.{◌≡◌, refl, sym, ◌∙◌, Bool, true, false, ◌⊎◌, inl, inr, Option, none, some}
use craftcontrol.Auth.Tables.{Database, Error}

pub data Result {ℓ} (A : Type ℓ) : Type ℓ where
  err : Error → Result A
  ok : A → Result A

abbrev pub Action : Type 0 → Type 0
Action A = Database → Result A × Database

infixl 10 ◌>>=◌ ◌>>◌
abbrev pub continue : {A B : Type 0} → Result A → (A → Action B) → Action B
continue (ok a) f db = f a db
continue (err e) f db = (err e, db)

abbrev pub ◌>>=◌ : {A B : Type 0} → Action A → (A → Action B) → Action B
◌>>=◌ m f db = continue (m db).0 f (m db).1

abbrev pub ◌>>◌ : {B : Type 0} → Action (Unit {0}) → Action B → Action B
m >> n = m >>= λ _. n

abbrev pub pure : {A : Type 0} → A → Action A
pure a db = (ok a, db)

abbrev pub raise : {A : Type 0} → Error → Action A
raise e db = (err e, db)

abbrev pub gets : {A : Type 0} → (Database → A) → Action A
gets f db = (ok (f db), db)

abbrev pub modify : (Database → Database) → Action (Unit {0})
modify f db = (ok tt, f db)

abbrev pub raise_if : Bool → Error → Action (Unit {0})
raise_if true e = raise e
raise_if false e = pure tt

abbrev pub or_raise : {A : Type 0} → Error → Option A → Action A
or_raise e none = raise e
or_raise e (some a) = pure a

abbrev pub settle : {A : Type 0} → Database → Result A → Database → Result A × Database
settle before (ok a) after = (ok a, after)
settle before (err e) after = (err e, before)

-- `with self._connect() as connection:` commits at the end of the block, and restores what was
-- there before it if the block raises.
unfoldable pub transaction : {A : Type 0} → Action A → Action A
transaction m db = settle db (m db).0 (m db).1

settle_err :
    {A : Type 0} (before : Database) (r : Result A) (after : Database) (e : Error)
    → (settle before r after).0 ≡ err e
    → (settle before r after).1 ≡ before
settle_err before (ok a) after e h = cc
settle_err before (err x) after e h = refl

-- A transaction that raises changes nothing.
pub transaction_err :
    {A : Type 0} (m : Action A) (db : Database) (e : Error)
    → (transaction m db).0 ≡ err e
    → (transaction m db).1 ≡ db
unfolding transaction
transaction_err m db e h = settle_err db (m db).0 (m db).1 e h

settle_result :
    {A : Type 0} (before : Database) (r : Result A) (after : Database)
    → (settle before r after).0 ≡ r
settle_result before (ok a) after = refl
settle_result before (err x) after = refl

-- A transaction returns what its block returns, or raises what it raises.
pub transaction_result :
    {A : Type 0} (m : Action A) (db : Database) → (transaction m db).0 ≡ (m db).0
unfolding transaction
transaction_result m db = settle_result db (m db).0 (m db).1

settle_ok :
    {A : Type 0} (before : Database) (r : Result A) (after : Database) (a : A)
    → r ≡ ok a
    → (settle before r after).1 ≡ after
settle_ok before (ok b) after a h = refl
settle_ok before (err x) after a h = cc

-- A transaction that returns leaves what its block left.
pub transaction_ok :
    {A : Type 0} (m : Action A) (db : Database) (a : A)
    → (m db).0 ≡ ok a
    → (transaction m db).1 ≡ (m db).1
unfolding transaction
transaction_ok m db a h = settle_ok db (m db).0 (m db).1 a h

pub Result-cases :
    {A : Type 0} (r : Result A) → ((e : Error) × (r ≡ err e)) ⊎ ((a : A) × (r ≡ ok a))
Result-cases (ok a) = inr (a, refl)
Result-cases (err e) = inl (e, refl)

-- What holds before a transaction and after its block, if that returns, holds after it.
pub transaction_keeps :
    {A : Type 0} (P : Database → Type 0) (m : Action A) (db : Database)
    → P db
    → ((a : A) → (m db).0 ≡ ok a → P (m db).1)
    → P (transaction m db).1
transaction_keeps P m db h k = elim (Result-cases (m db).0) [
  | inl (e, p) ↦ rw (transaction_err m db e (transaction_result m db ∙ p)) h
  | inr (a, p) ↦ rw (transaction_ok m db a p) (k a p)
]

-- What the block of a transaction ensures when it returns holds when the transaction returns.
pub transaction_ensures :
    {A : Type 0} (P : A → Database → Type 0) (m : Action A) (db : Database)
    → ((a : A) → (m db).0 ≡ ok a → P a (m db).1)
    → (a : A) → (transaction m db).0 ≡ ok a
    → P a (transaction m db).1
transaction_ensures P m db k a h =
    let e = sym (transaction_result m db) ∙ h in rw (transaction_ok m db a e) (k a e)

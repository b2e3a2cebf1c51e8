-- ===== src/Migrations.antt =====
-- apps/server/controlplane/src/core/migrations.py, and the start of core/repository.py: the versions of
-- the database. What the database holds, and what each migration does to it, are parameters.
pub mod Resume
mod Scenarios
use craftcontrol.Base.{
  ℕ, zero, suc, ◌+◌, max, Bool, true, false, not, ◌&&◌, Option, none, some, List, [], ◌∷◌, map, ltb,
  leb, ◌==◌, if◌then◌else◌, any,
}

pub data Error : Type 0 where
  newer_than_supported not_contiguous : Error
  -- the exception that the migration to a version raises
  raised : (version : ℕ) → Error

-- `max(migrations, default=0)`
unfoldable pub latest : List ℕ → ℕ
latest [] = 0
latest (v ∷ vs) = max v (latest vs)

unfoldable pub insert_sorted : ℕ → List ℕ → List ℕ
insert_sorted v [] = v ∷ []
insert_sorted v (w ∷ ws) = let rest = insert_sorted v ws in if leb v w then v ∷ w ∷ ws else w ∷ rest

unfoldable pub sorted : List ℕ → List ℕ
unfolding insert_sorted
sorted [] = []
sorted (v ∷ vs) = insert_sorted v (sorted vs)

-- The versions from `from`, so many.
unfoldable pub versions : ℕ → ℕ → List ℕ
versions from zero = []
versions from (suc n) = from ∷ versions (from + 1) n

unfoldable pub is_same : List ℕ → List ℕ → Bool
is_same [] [] = true
is_same (v ∷ vs) (w ∷ ws) = (v == w) && is_same vs ws
is_same _ _ = false

module _ (A : Type 0) where
  pub record Database : Type 0 where
    pub user_version : ℕ
    pub contents : A

  -- A migration raises or changes the contents.
  abbrev pub Migration : Type 0
  Migration = A → Option A

  pub record Run : Type 0 where
    pub database : Database
    pub error : Option Error

  -- The files `*.pre-v<version>.bak`, each with the version in its name.
  abbrev pub Backups : Type 0
  Backups = List (ℕ × Database)

module _ {A : Type 0} where
  -- `migrations[version]`, of the keys that the mapping has
  unfoldable pub lookup : ℕ → List (ℕ × Migration A) → Migration A
  lookup v [] = λ _. none
  lookup v ((w, m) ∷ ms) = if w == v then m else lookup v ms

  -- One transaction: an exception rolls the contents and the version back.
  abbrev pub migrated : ℕ → Option A → (Database A → Run A) → Database A → Run A
  migrated v none rest d = record { database = d; error = some (raised v) }
  migrated v (some a) rest d = rest (record { user_version = v; contents = a })

  -- The loop of `run_migrations`
  unfoldable pub migrate : List (ℕ × Migration A) → List ℕ → Database A → Run A
  unfolding lookup
  migrate ms [] d = record { database = d; error = none }
  migrate ms (v ∷ vs) d =
      if leb v d.user_version
      then migrate ms vs d
      else migrated v (lookup v ms d.contents) (migrate ms vs) d

  abbrev pub keys : List (ℕ × Migration A) → List ℕ
  keys ms = map (λ m. m.0) ms

  -- `run_migrations`, of a mapping with these keys
  unfoldable pub run_checked : List (ℕ × Migration A) → List ℕ → Database A → Run A
  unfolding latest sorted versions is_same migrate
  run_checked ms ks d =
      let newest = latest ks in
      if ltb newest d.user_version
      then record { database = d; error = some newer_than_supported }
      else if is_same (sorted ks) (versions 1 newest)
      then migrate ms (versions 1 newest) d
      else record { database = d; error = some not_contiguous }

  unfoldable pub run_migrations : List (ℕ × Migration A) → Database A → Run A
  unfolding run_checked
  run_migrations ms d = run_checked ms (keys ms) d

  -- `_backup_before_migration`: a file that is there is kept.
  abbrev pub backup_before_migration : Database A → Backups A → Backups A
  backup_before_migration d bs =
      if any (λ b. b.0 == d.user_version) bs then bs else (d.user_version, d) ∷ bs

  -- `initialize`, of a database file that is there with data, or is not
  unfoldable pub initialize :
      List (ℕ × Migration A) → Bool → Database A → Backups A → Run A × Backups A
  unfolding run_migrations
  initialize ms existing d bs = (
    run_migrations ms d,
    if existing && ltb d.user_version (latest (keys ms)) then backup_before_migration d bs else bs,
  )

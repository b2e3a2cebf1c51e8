-- ===== src/Migrations/Scenarios.antt =====
-- Concrete migrations, and the theorem at them.
use craftcontrol.Base.{
  ℕ, ◌≡◌, refl, true, none, some, List, [], ◌∷◌, arith, inl, inr, Bool-cases, ◌==◌,
}
use craftcontrol.Migrations.{
  Database, Migration, Run, Backups, run_migrations, initialize, raised, lookup,
}
use craftcontrol.Migrations.Resume.{Agrees, run_migrations-resume}

-- The contents are the migrations that were applied.
abbrev applies : ℕ → Migration (List ℕ)
applies v a = some (v ∷ a)

abbrev all_apply : List (ℕ × Migration (List ℕ))
all_apply = (2, applies 2) ∷ (1, applies 1) ∷ (3, applies 3) ∷ []

abbrev second_raises : List (ℕ × Migration (List ℕ))
second_raises = (2, λ a. none) ∷ (1, applies 1) ∷ (3, applies 3) ∷ []

abbrev new_database : Database (List ℕ)
new_database = record { user_version = 0; contents = [] }

second_raises-run :
    run_migrations second_raises new_database
    ≡ record { database = record { user_version = 1; contents = 1 ∷ [] }; error = some (raised 2) }
unfolding run_migrations
second_raises-run = refl

-- The start that is broken off and the start after it each leave a backup of the version that they met.
abbrev restarted : Run (List ℕ) × Backups (List ℕ)
restarted =
    let (run, backups) = initialize second_raises true new_database [] in
    initialize all_apply true run.database backups

restarted-backups :
    restarted.1 ≡ (1, record { user_version = 1; contents = 1 ∷ [] }) ∷ (0, new_database) ∷ []
unfolding initialize
restarted-backups = refl

restarted-run :
    restarted.0
    ≡ record { database = record { user_version = 3; contents = 3 ∷ 2 ∷ 1 ∷ [] }; error = none }
unfolding initialize
restarted-run = refl

second_raises-Agrees : Agrees second_raises all_apply
unfolding lookup
second_raises-Agrees v a b h = elim (Bool-cases (2 == v)) [
  | inl two ↦ absurd (ground (arith, two, h))
  | inr other ↦ ground (arith, other, h)
]

run_migrations-resume_example :
    run_migrations all_apply (run_migrations second_raises new_database).database
    ≡ run_migrations all_apply new_database
run_migrations-resume_example =
    run_migrations-resume second_raises all_apply new_database refl second_raises-Agrees

-- ===== src/Migrations/Resume.antt =====
-- core/migrations.py: an upgrade that is broken off and started again.
use craftcontrol.Base.{
  ℕ, zero, suc, ◌+◌, ◌≤◌, ◌<◌, ◌≡◌, refl, ap, sym, ◌∙◌, true, false, none, some, List, [], ◌∷◌, leb,
  ltb, arith, inl, inr, Bool-cases, Option-cases,
}
use craftcontrol.Migrations.{
  Database, Migration, lookup, migrate, versions, keys, run_migrations, run_checked, latest, sorted,
  is_same,
}

module _ {A : Type 0} where
  -- The second attempt does what the first one did where that did not raise.
  abbrev pub Agrees : List (ℕ × Migration A) → List (ℕ × Migration A) → Type 0
  Agrees f g = (v : ℕ) (a b : A) → lookup v f a ≡ some b → lookup v g a ≡ some b

  migrate-le :
      (f : List (ℕ × Migration A)) (from n : ℕ) (d : Database A)
      → d.user_version ≤ (migrate f (versions from n) d).database.user_version
  unfolding migrate versions
  migrate-le f from zero d = omega arith
  migrate-le f from (suc n) d = elim (Bool-cases (leb from d.user_version)) [
    | inl done ↦ rw (done, migrate) (migrate-le f (from + 1) n d)
    | inr due ↦ elim (Option-cases (lookup from f d.contents)) [
      | inl e ↦ rw (due, e, migrate) (omega arith)
      | inr (a, e) ↦
          rw (due, e, migrate)
            (ground (
              arith,
              due,
              migrate-le f (from + 1) n (record { user_version = from; contents = a }),
            ))
    ]
  ]

  migrate-lt :
      (f : List (ℕ × Migration A)) (from n top : ℕ) (d : Database A)
      → from + n ≤ top
      → d.user_version < top
      → (migrate f (versions from n) d).database.user_version < top
  unfolding migrate versions
  migrate-lt f from zero top d h k = k
  migrate-lt f from (suc n) top d h k = elim (Bool-cases (leb from d.user_version)) [
    | inl done ↦ rw (done, migrate) (migrate-lt f (from + 1) n top d (omega arith) k)
    | inr due ↦ elim (Option-cases (lookup from f d.contents)) [
      | inl e ↦ rw (due, e, migrate) k
      | inr (a, e) ↦
          rw (due, e, migrate)
            (migrate-lt f (from + 1) n top (record { user_version = from; contents = a })
              (omega arith) (omega arith))
    ]
  ]

  module _ (ms : List (ℕ × Migration A)) (v : ℕ) (vs : List ℕ) (d : Database A) where
    migrate-skip : leb v d.user_version ≡ true → migrate ms (v ∷ vs) d ≡ migrate ms vs d
    unfolding migrate
    migrate-skip h = rw (h, migrate) refl

    migrate-stop :
        leb v d.user_version ≡ false
        → lookup v ms d.contents ≡ none
        → (migrate ms (v ∷ vs) d).database ≡ d
    unfolding migrate
    migrate-stop h e = rw (h, e, migrate) refl

    migrate-go :
        (a : A)
        → leb v d.user_version ≡ false
        → lookup v ms d.contents ≡ some a
        → migrate ms (v ∷ vs) d ≡ migrate ms vs (record { user_version = v; contents = a })
    unfolding migrate
    migrate-go a h e = rw (h, e, migrate) refl

  migrate-resume :
      (f g : List (ℕ × Migration A)) (from n : ℕ) (d : Database A)
      → Agrees f g
      → migrate g (versions from n) (migrate f (versions from n) d).database
        ≡ migrate g (versions from n) d
  unfolding versions
  migrate-resume f g from zero d h = ap (migrate g []) (nothing d)
    where
      nothing : (x : Database A) → (migrate f [] x).database ≡ x
      nothing x = unfold migrate in refl
  migrate-resume f g from (suc n) d h =
      let vs = versions (from + 1) n in
      elim (Bool-cases (leb from d.user_version)) [
        | inl done ↦
            ap (λ r. migrate g (from ∷ vs) r.database) (migrate-skip f from vs d done)
            ∙ migrate-skip g from vs (migrate f vs d).database
                (ground (arith, done, migrate-le f (from + 1) n d))
            ∙ migrate-resume f g (from + 1) n d h
            ∙ sym (migrate-skip g from vs d done)
        | inr due ↦ elim (Option-cases (lookup from f d.contents)) [
          | inl e ↦ ap (migrate g (from ∷ vs)) (migrate-stop f from vs d due e)
          | inr (a, e) ↦
              let d' : Database A = record { user_version = from; contents = a } in
              ap (λ r. migrate g (from ∷ vs) r.database) (migrate-go f from vs d a due e)
              ∙ migrate-skip g from vs (migrate f vs d').database
                  (ground (arith, migrate-le f (from + 1) n d'))
              ∙ migrate-resume f g (from + 1) n d' h
              ∙ sym (migrate-go g from vs d a due (h from d.contents a e))
        ]
      ]

  module _ (ms : List (ℕ × Migration A)) (ks : List ℕ) (d : Database A) where
    checked-refused : ltb (latest ks) d.user_version ≡ true → (run_checked ms ks d).database ≡ d
    unfolding run_checked
    checked-refused h = rw (h, run_checked) refl

    checked-gap :
        is_same (sorted ks) (versions 1 (latest ks)) ≡ false → (run_checked ms ks d).database ≡ d
    unfolding run_checked
    checked-gap h = elim (Bool-cases (ltb (latest ks) d.user_version)) [
      | inl newer ↦ checked-refused newer
      | inr fits ↦ rw (fits, h, run_checked) refl
    ]

    checked-runs :
        ltb (latest ks) d.user_version ≡ false
        → is_same (sorted ks) (versions 1 (latest ks)) ≡ true
        → run_checked ms ks d ≡ migrate ms (versions 1 (latest ks)) d
    unfolding run_checked
    checked-runs fits h = rw (fits, h, run_checked) refl

  run_checked-resume :
      (f g : List (ℕ × Migration A)) (ks : List ℕ) (d : Database A)
      → Agrees f g
      → run_checked g ks (run_checked f ks d).database ≡ run_checked g ks d
  run_checked-resume f g ks d h = elim (Bool-cases (ltb (latest ks) d.user_version)) [
    | inl newer ↦ ap (run_checked g ks) (checked-refused f ks d newer)
    | inr fits ↦ elim (Bool-cases (is_same (sorted ks) (versions 1 (latest ks)))) [
      | inr gap ↦ ap (run_checked g ks) (checked-gap f ks d gap)
      | inl whole ↦
          let vs = versions 1 (latest ks) in
          let low : (migrate f vs d).database.user_version < latest ks + 1 =
            migrate-lt f 1 (latest ks) (latest ks + 1) d (omega arith) (ground (arith, fits)) in
          ap (λ r. run_checked g ks r.database) (checked-runs f ks d fits whole)
          ∙ checked-runs g ks (migrate f vs d).database (ground (arith, low)) whole
          ∙ migrate-resume f g 1 (latest ks) d h
          ∙ sym (checked-runs g ks d fits whole)
    ]
  ]

  -- An upgrade that a migration breaks off, started again with migrations of the same versions that do
  -- what the first ones did where these did not raise, ends as an upgrade that was never broken off:
  -- with the same contents, the same version and the same error or none.
  pub run_migrations-resume :
      (f g : List (ℕ × Migration A)) (d : Database A)
      → keys f ≡ keys g
      → Agrees f g
      → run_migrations g (run_migrations f d).database ≡ run_migrations g d
  unfolding run_migrations
  run_migrations-resume f g d same h =
      ap (λ ks. run_checked g (keys g) (run_checked f ks d).database) same
      ∙ run_checked-resume f g (keys g) d h

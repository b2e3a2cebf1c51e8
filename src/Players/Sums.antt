-- ===== src/Players/Sums.antt =====
-- players/sqlite.py: the sum of a column over the rows of an identity, after each change of a table.
use craftcontrol.Base.{
  ℕ, ◌+◌, ◌≡◌, refl, Bool, true, false, ◌&&◌, List, [], ◌∷◌, ◌++◌, String, str_eq, str_eq→eq,
  if◌then◌else◌, any, arith, eq_iff, inl, inr, Bool-cases,
}
use craftcontrol.Base.Rows.{update_where, delete_where, upsert, update_last, total}

-- What a row contributes to the sum of an identity.
abbrev pub when : Bool → ℕ → ℕ
when b n = if b then n else 0

module _ {A : Type 0} (id : A → String) (w : A → ℕ) where
  pub total-append :
      (i : String) (xs ys : List A) → total id w i (xs ++ ys) ≡ total id w i xs + total id w i ys
  unfolding total
  total-append i [] ys = omega arith
  total-append i (x ∷ xs) ys = ground (arith, total-append i xs ys)

  pub total-upsert :
      (i j : String) (n : ℕ) (p : A → Bool) (row : A) (f : A → A) (xs : List A)
      → id row ≡ j
      → w row ≡ n
      → ((x : A) → p x ≡ true → id x ≡ j)
      → ((x : A) → id (f x) ≡ id x)
      → ((x : A) → w (f x) ≡ w x + n)
      → total id w i (upsert p row f xs) ≡ total id w i xs + when (str_eq j i) n
  unfolding total upsert
  total-upsert i j n p row f [] r k h g m = rw (r, k) (ground arith)
  total-upsert i j n p row f (x ∷ xs) r k h g m = elim (Bool-cases (p x)) [
    | inl hit ↦ rw (hit, g x, m x, h x hit) (ground arith)
    | inr miss ↦ rw miss (ground (arith, total-upsert i j n p row f xs r k h g m))
  ]

  pub total-delete_other :
      (i j : String) (xs : List A)
      → str_eq j i ≡ false
      → total id w i (delete_where (λ x. str_eq (id x) j) xs) ≡ total id w i xs
  unfolding total delete_where
  total-delete_other i j [] n = refl
  total-delete_other i j (x ∷ xs) n = elim (Bool-cases (str_eq (id x) j)) [
    | inl hit ↦ rw (hit, str_eq→eq (id x) j hit, n) (total-delete_other i j xs n)
    | inr miss ↦ rw miss (ground (arith, total-delete_other i j xs n))
  ]

  pub total-delete_self :
      (j : String) (xs : List A) → total id w j (delete_where (λ x. str_eq (id x) j) xs) ≡ 0
  unfolding total delete_where
  total-delete_self j [] = refl
  total-delete_self j (x ∷ xs) = elim (Bool-cases (str_eq (id x) j)) [
    | inl hit ↦ rw hit (total-delete_self j xs)
    | inr miss ↦ rw (miss, miss) (total-delete_self j xs)
  ]

  -- The rows of `a` go to `b`.
  pub total-move :
      (i a b : String) (f : A → A) (xs : List A)
      → str_eq a b ≡ false
      → ((x : A) → id (f x) ≡ b)
      → ((x : A) → w (f x) ≡ w x)
      → total id w i (update_where (λ x. str_eq (id x) a) f xs)
        ≡ (if str_eq a i then 0 else (total id w i xs + when (str_eq b i) (total id w a xs)))
  unfolding total update_where
  total-move i a b f [] n g m = ground arith
  total-move i a b f (x ∷ xs) n g m = elim (Bool-cases (str_eq (id x) a)) [
    | inl hit ↦
        rw (hit, g x, m x, str_eq→eq (id x) a hit)
          (ground (arith, total-move i a b f xs n g m, eq_iff a i, eq_iff b i, eq_iff a b))
    | inr miss ↦
        rw (miss) (
          ground (arith, total-move i a b f xs n g m, eq_iff a i, eq_iff (id x) i, eq_iff (id x) a))
  ]

  -- The last row that fits gets another weight.
  pub total-update_last :
      (i j : String) (n : ℕ) (p : A → Bool) (f : A → A) (xs : List A)
      → ((x : A) → p x ≡ true → id x ≡ j)
      → ((x : A) → p x ≡ true → w x ≡ 0)
      → ((x : A) → id (f x) ≡ id x)
      → ((x : A) → w (f x) ≡ n)
      → total id w i (update_last p f xs) ≡ total id w i xs + when (any p xs && str_eq j i) n
  unfolding total update_last
  total-update_last i j n p f [] h z g m = refl
  total-update_last i j n p f (x ∷ xs) h z g m = elim (Bool-cases (any p xs)) [
    | inl later ↦ rw later (ground (arith, total-update_last i j n p f xs h z g m, later))
    | inr last ↦ elim (Bool-cases (p x)) [
      | inl hit ↦ rw (last, hit, g x, m x, h x hit) (ground (arith, z x hit, h x hit))
      | inr miss ↦ rw (last, miss) (ground arith)
    ]
  ]

  -- The last row that fits keeps its weight.
  pub total-update_last_same :
      (i : String) (p : A → Bool) (f : A → A) (xs : List A)
      → ((x : A) → id (f x) ≡ id x)
      → ((x : A) → w (f x) ≡ w x)
      → total id w i (update_last p f xs) ≡ total id w i xs
  unfolding total update_last
  total-update_last_same i p f [] g m = refl
  total-update_last_same i p f (x ∷ xs) g m = elim (Bool-cases (any p xs)) [
    | inl later ↦ rw later (ground (arith, total-update_last_same i p f xs g m))
    | inr last ↦ elim (Bool-cases (p x)) [
      | inl hit ↦ rw (last, hit, g x, m x) refl
      | inr miss ↦ rw (last, miss) refl
    ]
  ]

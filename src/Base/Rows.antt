-- ===== src/Base/Rows.antt =====
-- The rows of an SQL table, in the order of their insertion.
use Prim.Native.Nat.{ℕ, ◌+◌}
use Prim.Native.String.{String}
use mathlib.Core.Bool.{Bool}
use mathlib.Core.Option.{Option, none, some}
use mathlib.Core.List.{List, [], ◌∷◌}
use craftcontrol.Base.Tests.{if◌then◌else◌, any, str_eq}

module _ {ℓ} {A : Type ℓ} where
  -- `UPDATE … SET … WHERE …` and `DELETE … WHERE …`
  unfoldable pub update_where : (A → Bool) → (A → A) → List A → List A
  update_where p f [] = []
  update_where p f (x ∷ xs) = let rest = update_where p f xs in if p x then f x ∷ rest else x ∷ rest

  unfoldable pub delete_where : (A → Bool) → List A → List A
  delete_where p [] = []
  delete_where p (x ∷ xs) = let rest = delete_where p xs in if p x then rest else x ∷ rest

  -- `SELECT count(*) … WHERE …`
  unfoldable pub count_where : (A → Bool) → List A → ℕ
  count_where p [] = 0
  count_where p (x ∷ xs) = let rest = count_where p xs in if p x then rest + 1 else rest

  -- `INSERT … ON CONFLICT … DO UPDATE …`, where `p` finds the row with the key
  unfoldable pub upsert : (A → Bool) → A → (A → A) → List A → List A
  upsert p row f [] = row ∷ []
  upsert p row f (x ∷ xs) = let rest = upsert p row f xs in if p x then f x ∷ xs else x ∷ rest

  -- `… WHERE … ORDER BY id DESC LIMIT 1`, and an update of that row
  unfoldable pub find_last : (A → Bool) → List A → Option A
  find_last p [] = none
  find_last p (x ∷ xs) = elim (find_last p xs) [
    | some y ↦ some y
    | none ↦ if p x then some x else none
  ]

  unfoldable pub update_last : (A → Bool) → (A → A) → List A → List A
  update_last p f [] = []
  update_last p f (x ∷ xs) =
      let rest = update_last p f xs in
      if any p xs then x ∷ rest else if p x then f x ∷ xs else x ∷ xs

  -- The sum of a column over the rows with a key.
  unfoldable pub total : (A → String) → (A → ℕ) → String → List A → ℕ
  total id w i [] = 0
  total id w i (x ∷ xs) = let rest = total id w i xs in if str_eq (id x) i then w x + rest else rest

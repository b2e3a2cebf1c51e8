-- ===== src/Operation/Service/Listing/Pages.antt =====
-- operations/service.py: the pages of the listing, one after another.
use native.Mathlib.Nat.{lt-div-mul-add}
use mathlib.Core.Path.{subst}
use mathlib.Core.List.{Perm}
use mathlib.Core.List.Perm
use craftcontrol.Base.{
  ℕ, zero, suc, ◌+◌, ◌-◌, ◌*◌, ◌/◌, ◌≤◌, ◌<◌, max, ◌≡◌, refl, sym, ap, ◌∙◌, false, not, ◌&&◌, List,
  [], ◌∷◌, ◌++◌, ltb, leb, length, arith, inl, inr, Bool-cases,
}
use craftcontrol.Operation.Lifecycle.{ServerOperation}
use craftcontrol.Operation.Service.{Service}
use craftcontrol.Operation.Service.Listing.{
  comes_first, place, rows_of, newest_first, drop, take, recent_rows, Listing, listed, list_recent,
}

abbrev pub rows : Listing → List ServerOperation
rows (listed p) = p.operations
rows _ = []

-- The number of pages that an answer gives.
abbrev pub page_count : Listing → ℕ
page_count (listed p) = p.pages
page_count _ = 0

-- The operations of the first pages.
unfoldable pub first_pages : ℕ → ℕ → Service → List ServerOperation
first_pages limit zero s = []
first_pages limit (suc n) s = first_pages limit n s ++ rows (list_recent limit (suc n) s)

-- All operations of the server, from the newest to the oldest.
abbrev pub all_rows : Service → List ServerOperation
all_rows s = newest_first (rows_of s.server_id s.table)

place-Perm : (op : ServerOperation) (os : List ServerOperation) → Perm (place op os) (op ∷ os)
unfolding place
place-Perm op [] = Perm.refl (op ∷ [])
place-Perm op (o ∷ os) = elim (Bool-cases (comes_first op o)) [
  | inl first ↦ rw (first, place) (Perm.refl (op ∷ o ∷ os))
  | inr second ↦
      rw (second, place) (Perm.trans (Perm.cons o (place-Perm op os)) (Perm.swap op o os))
]

newest_first-Perm : (os : List ServerOperation) → Perm (newest_first os) os
unfolding newest_first
newest_first-Perm [] = Perm.refl []
newest_first-Perm (op ∷ os) =
    Perm.trans (place-Perm op (newest_first os)) (Perm.cons op (newest_first-Perm os))

length-place :
    (op : ServerOperation) (os : List ServerOperation) → length (place op os) ≡ suc (length os)
unfolding place
length-place op [] = refl
length-place op (o ∷ os) = ground (arith, length-place op os)

length-newest_first : (os : List ServerOperation) → length (newest_first os) ≡ length os
unfolding newest_first
length-newest_first [] = refl
length-newest_first (op ∷ os) = length-place op (newest_first os) ∙ ap suc (length-newest_first os)

take-nil : (n : ℕ) → take n [] ≡ []
unfolding take
take-nil zero = refl
take-nil (suc n) = refl

take_more :
    (m k : ℕ) (os : List ServerOperation) → take m os ++ take k (drop m os) ≡ take (m + k) os
unfolding take drop
take_more zero k os = ap (λ n. take n os) (omega arith)
take_more (suc m) k [] = take-nil k ∙ sym (take-nil (suc m + k))
take_more (suc m) k (o ∷ os) =
    let e : suc (m + k) ≡ suc m + k = omega arith in
    ap (λ x. o ∷ x) (take_more m k os) ∙ ap (λ n. take n (o ∷ os)) e

take_enough : (n : ℕ) (os : List ServerOperation) → length os ≤ n → take n os ≡ os
unfolding take
take_enough zero [] h = refl
take_enough zero (o ∷ os) h = ground (arith, h)
take_enough (suc n) [] h = refl
take_enough (suc n) (o ∷ os) h = ap (λ x. o ∷ x) (take_enough n os (ground (arith, h)))

-- A page of a limit that is allowed.
rows_of_page :
    (limit n : ℕ) (s : Service)
    → 1 ≤ limit
    → limit ≤ 100
    → rows (list_recent limit (suc n) s) ≡ take limit (drop (n * limit) (all_rows s))
unfolding list_recent recent_rows
rows_of_page limit n s low high =
    let allowed : not (leb 1 limit && leb limit 100) ≡ false = ground (arith, low, high) in
    let later : ltb (suc n) 1 ≡ false = ground arith in
    let e : suc n - 1 ≡ n = omega arith in
    rw (allowed, later) (ap (λ k. take limit (drop (k * limit) (all_rows s))) e)

first_pages-take :
    (limit n : ℕ) (s : Service)
    → 1 ≤ limit
    → limit ≤ 100
    → first_pages limit n s ≡ take (n * limit) (all_rows s)
unfolding first_pages take
first_pages-take limit zero s low high =
    let e : 0 ≡ 0 * limit = omega arith in ap (λ k. take k (all_rows s)) e
first_pages-take limit (suc n) s low high =
    let e : n * limit + limit ≡ suc n * limit = omega arith in
    ap (λ x. x ++ rows (list_recent limit (suc n) s)) (first_pages-take limit n s low high)
    ∙ ap (λ x. take (n * limit) (all_rows s) ++ x) (rows_of_page limit n s low high)
    ∙ take_more (n * limit) limit (all_rows s)
    ∙ ap (λ k. take k (all_rows s)) e

at_least_one :
    (q limit total : ℕ)
    → 1 ≤ limit
    → total + limit - 1 < q * limit + limit
    → total ≤ max 1 q * limit
at_least_one zero limit total low h = omega (arith, low, h)
at_least_one (suc m) limit total low h =
    let e : suc m ≡ max 1 (suc m) = omega arith in
    subst (λ q. total ≤ q * limit) e (omega (arith, low, h))

-- The number of pages is enough for all rows.
enough_pages : (limit total : ℕ) → 1 ≤ limit → total ≤ max 1 ((total + limit - 1) / limit) * limit
enough_pages limit total low =
    at_least_one ((total + limit - 1) / limit) limit total low (lt-div-mul-add low)

first_page_count :
    (limit : ℕ) (s : Service)
    → 1 ≤ limit
    → limit ≤ 100
    → page_count (list_recent limit 1 s)
      ≡ max 1 ((length (rows_of s.server_id s.table) + limit - 1) / limit)
unfolding list_recent recent_rows
first_page_count limit s low high =
    let allowed : not (leb 1 limit && leb limit 100) ≡ false = ground (arith, low, high) in
    rw allowed refl

-- The pages of a listing, from the first to the last that it names, are together all operations of
-- the server, each once, for every limit between 1 and 100.
pub first_pages-Perm :
    (limit : ℕ) (s : Service)
    → 1 ≤ limit
    → limit ≤ 100
    → Perm (first_pages limit (page_count (list_recent limit 1 s)) s) (rows_of s.server_id s.table)
first_pages-Perm limit s low high =
    let os = rows_of s.server_id s.table in
    let n = max 1 ((length os + limit - 1) / limit) in
    let named : page_count (list_recent limit 1 s) ≡ n = first_page_count limit s low high in
    let whole : length (all_rows s) ≤ n * limit =
      rw (length-newest_first os) (enough_pages limit (length os) low) in
    let together : first_pages limit n s ≡ all_rows s =
      first_pages-take limit n s low high ∙ take_enough (n * limit) (all_rows s) whole in
    subst (λ m. Perm (first_pages limit m s) os) (sym named)
      (subst (λ x. Perm x os) (sym together) (newest_first-Perm os))

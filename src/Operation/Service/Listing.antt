-- ===== src/Operation/Service/Listing.antt =====
-- operations/service.py and operations/repository.py: the listing of the operations of a server, in
-- pages from the newest to the oldest.
pub mod Pages
use Prim.Native.String.{compare}
use Prim.Native.Nat.{Ordering}
use mathlib.Core.List.Perm
use craftcontrol.Base.{
  ℕ, zero, suc, ◌+◌, ◌-◌, ◌*◌, ◌/◌, max, Bool, true, false, not, ◌&&◌, ◌||◌, List, [], ◌∷◌, String,
  str_eq, ltb, leb, ◌==◌, if◌then◌else◌, length,
}
use craftcontrol.Operation.Lifecycle.{ServerOperation}
use craftcontrol.Operation.Service.{Table, Service}

-- `s >= t` of texts
abbrev pub str_ge : String → String → Bool
str_ge s t = elim (compare s t) [ Ordering.lt ↦ false | _ ↦ true ]

-- `ORDER BY created_at DESC, operation_id DESC`
abbrev pub comes_first : ServerOperation → ServerOperation → Bool
comes_first a b =
    ltb b.created_at a.created_at
    || (a.created_at == b.created_at && str_ge a.operation_id b.operation_id)

unfoldable pub place : ServerOperation → List ServerOperation → List ServerOperation
place op [] = op ∷ []
place op (o ∷ os) = let rest = place op os in if comes_first op o then op ∷ o ∷ os else o ∷ rest

unfoldable pub rows_of : String → Table → List ServerOperation
rows_of server [] = []
rows_of server ((id, op) ∷ t) =
    let rest = rows_of server t in if str_eq op.server_id server then op ∷ rest else rest

unfoldable pub newest_first : List ServerOperation → List ServerOperation
unfolding place
newest_first [] = []
newest_first (op ∷ os) = place op (newest_first os)

unfoldable pub drop : ℕ → List ServerOperation → List ServerOperation
drop zero os = os
drop (suc n) [] = []
drop (suc n) (o ∷ os) = drop n os

unfoldable pub take : ℕ → List ServerOperation → List ServerOperation
take zero os = []
take (suc n) [] = []
take (suc n) (o ∷ os) = o ∷ take n os

-- `list_recent` of the repository: the rows of a page, and the number of all rows
unfoldable pub recent_rows : String → ℕ → ℕ → Table → List ServerOperation × ℕ
unfolding newest_first rows_of drop take
recent_rows server limit page t =
    let all = rows_of server t in
    (take limit (drop ((page - 1) * limit) (newest_first all)), length all)

pub record Page : Type 0 where
  pub operations : List ServerOperation
  pub page : ℕ
  pub page_size : ℕ
  pub total : ℕ
  pub pages : ℕ

-- What `list_recent` of the service comes to: a page, or one of its two `ValueError`s.
pub data Listing : Type 0 where
  listed : Page → Listing
  bad_limit bad_page : Listing

abbrev pub page_of : ℕ → ℕ → List ServerOperation × ℕ → Page
page_of limit page (operations, total) = record {
  operations = operations;
  page = page;
  page_size = limit;
  total = total;
  pages = max 1 ((total + limit - 1) / limit);
}

unfoldable pub list_recent : ℕ → ℕ → Service → Listing
unfolding recent_rows
list_recent limit page s =
    if not (leb 1 limit && leb limit 100)
    then bad_limit
    else if ltb page 1
    then bad_page
    else listed (page_of limit page (recent_rows s.server_id limit page s.table))

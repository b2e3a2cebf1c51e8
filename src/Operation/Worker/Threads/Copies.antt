-- ===== src/Operation/Worker/Threads/Copies.antt =====
-- operations/service.py: what the copies of the threads have to do with the rows of the table.
use craftcontrol.Base.{
  ◌≡◌, ◌⊎◌, refl, sym, ap, ◌∙◌, true, false, none, some, String, arith, Bool-cases, inl, inr,
  str_eq, str_eq→eq,
}
use craftcontrol.Base.Dict.{
  Dict, lookup, insert, remove, lookup-insert, lookup-insert_self, lookup-remove,
}
use craftcontrol.Operation.Lifecycle.{ServerOperation}
use craftcontrol.Operation.Service.{Table, is_active, newest}
use craftcontrol.Operation.Service.Single.{
  IsSingle, single_row, some_injective, newest-none, insert-IsSingle,
}

-- The row of a key is active.
abbrev pub HasActive : String → String → Table → Type 0
HasActive server k t = (b : ServerOperation) × (lookup k t ≡ some b) × (is_active server b ≡ true)

-- At most one row of the server is active, and a thread whose copy is active has an active row.
pub record IsBacked (server : String) (t : Table) (cs : Dict ServerOperation) : Type 0 where
  pub single : IsSingle server t
  pub keyed : (k : String) (op : ServerOperation) → lookup k t ≡ some op → op.operation_id ≡ k
  pub own : (k : String) (op : ServerOperation) → lookup k cs ≡ some op → op.operation_id ≡ k
  pub served : (k : String) (op : ServerOperation) → lookup k cs ≡ some op → op.server_id ≡ server
  pub backed :
      (k : String) (op : ServerOperation)
      → lookup k cs ≡ some op
      → is_active server op ≡ true
      → HasActive server k t

-- What a key finds after an insertion.
pub lookup-found :
    (k j : String) (op b : ServerOperation) (t : Table)
    → lookup j (insert k op t) ≡ some b
    → ((k ≡ j) × (op ≡ b)) ⊎ ((str_eq k j ≡ false) × (lookup j t ≡ some b))
lookup-found k j op b t h = elim (Bool-cases (str_eq k j)) [
  | inl y ↦ inl (str_eq→eq k j y, some_injective (rw (lookup-insert, y) at h))
  | inr n ↦ inr (n, rw (lookup-insert, n) at h)
]

HasActive-insert :
    (server k j : String) (row : ServerOperation) (t : Table)
    → HasActive server j t
    → str_eq k j ≡ false
    → HasActive server j (insert k row t)
HasActive-insert server k j row t (b, p, q) n = (b, rw (lookup-insert, n) p, q)

module _ (server : String) (t : Table) (cs : Dict ServerOperation) (h : IsBacked server t cs) where
  -- A row is written that is active only if the row of its key was, and that is active if the copy is.
  pub row-IsBacked :
      (k : String) (row : ServerOperation)
      → row.operation_id ≡ k
      → (is_active server row ≡ true → HasActive server k t)
      → ((op : ServerOperation)
          → lookup k cs ≡ some op
          → is_active server op ≡ true
          → is_active server row ≡ true)
      → IsBacked server (insert k row t) cs
  row-IsBacked k row e m c = record {
    single =
        insert-IsSingle server k row t h.single
          (λ j b f y z. let (a, p, q) = m z in single_row server t h.single j k b a f p y q);
    keyed = λ j b f. elim (lookup-found k j row b t f) [
      | inl (same, found) ↦ ap (λ o. o.operation_id) (sym found) ∙ e ∙ same
      | inr (other, found) ↦ h.keyed j b found
    ];
    own = h.own;
    served = h.served;
    backed = λ j op f y. elim (Bool-cases (str_eq k j)) [
      | inl same ↦
          let k_j = str_eq→eq k j same in
          (row, rw (lookup-insert, same) refl, c op (rw (sym k_j) at f) y)
      | inr other ↦ HasActive-insert server k j row t (h.backed j op f y) other
    ];
  }

  -- A thread's copy changes.
  pub copy-IsBacked :
      (k : String) (op : ServerOperation)
      → op.operation_id ≡ k
      → op.server_id ≡ server
      → (is_active server op ≡ true → HasActive server k t)
      → IsBacked server t (insert k op cs)
  copy-IsBacked k op e v m = record {
    single = h.single;
    keyed = h.keyed;
    own = λ j b f. elim (lookup-found k j op b cs f) [
      | inl (same, found) ↦ ap (λ o. o.operation_id) (sym found) ∙ e ∙ same
      | inr (other, found) ↦ h.own j b found
    ];
    served = λ j b f. elim (lookup-found k j op b cs f) [
      | inl (same, found) ↦ ap (λ o. o.server_id) (sym found) ∙ v
      | inr (other, found) ↦ h.served j b found
    ];
    backed = λ j b f y. elim (lookup-found k j op b cs f) [
      | inl (same, found) ↦ rw (sym same) (m (rw found y))
      | inr (other, found) ↦ h.backed j b found y
    ];
  }

  -- A new operation, while none is active.
  pub new-IsBacked :
      (op : ServerOperation)
      → op.server_id ≡ server
      → newest (is_active server) t ≡ none
      → IsBacked server (insert op.operation_id op t) (insert op.operation_id op cs)
  new-IsBacked op v n = record {
    single =
        insert-IsSingle server op.operation_id op t h.single
          (λ j b f y z. ground (arith, newest-none (is_active server) t j b n f, y));
    keyed = λ j b f. elim (lookup-found op.operation_id j op b t f) [
      | inl (same, found) ↦ ap (λ o. o.operation_id) (sym found) ∙ same
      | inr (other, found) ↦ h.keyed j b found
    ];
    own = λ j b f. elim (lookup-found op.operation_id j op b cs f) [
      | inl (same, found) ↦ ap (λ o. o.operation_id) (sym found) ∙ same
      | inr (other, found) ↦ h.own j b found
    ];
    served = λ j b f. elim (lookup-found op.operation_id j op b cs f) [
      | inl (same, found) ↦ ap (λ o. o.server_id) (sym found) ∙ v
      | inr (other, found) ↦ h.served j b found
    ];
    backed = λ j b f y. elim (lookup-found op.operation_id j op b cs f) [
      | inl (same, found) ↦
          (op, rw (sym same) (lookup-insert_self op.operation_id op t), rw found y)
      | inr (other, found) ↦
          let (a, p, q) = h.backed j b found y in
          absurd (ground (arith, newest-none (is_active server) t j a n p, q))
    ];
  }

  -- A thread ends.
  pub finish-IsBacked : (k : String) → IsBacked server t (remove k cs)
  finish-IsBacked k = record {
    single = h.single;
    keyed = h.keyed;
    own = λ j b f. h.own j b (kept j b f);
    served = λ j b f. h.served j b (kept j b f);
    backed = λ j b f y. h.backed j b (kept j b f) y;
  }
    where
      kept :
          (j : String) (b : ServerOperation)
          → lookup j (remove k cs) ≡ some b
          → lookup j cs ≡ some b
      kept j b f = ground (arith, lookup-remove k j cs, f)

-- ===== src/Operation/Service/Single.antt =====
-- operations/repository.py: the writes that keep at most one operation of a server active.
use craftcontrol.Base.{
  ◌≡◌, sym, ◌∙◌, Bool, true, false, none, some, [], ◌∷◌, String, arith, str_eq, Bool-cases,
  Option-cases, inl, inr, eq_iff, str_eq→eq,
}
use craftcontrol.Base.Dict.{lookup, insert, lookup-insert}
use craftcontrol.Operation.Lifecycle.{
  ServerOperation, ok, start, begin_stage, complete_stage, fail_stage, skip_stage, confirm, diverge,
  update_observation,
}
use craftcontrol.Operation.Lifecycle.Machine.{Call, call, to_start}
use craftcontrol.Operation.Service.{Table, save, newest, is_active, get_active, Service, save_new}

-- Two active operations of the server are the same row.
unfoldable pub IsSingle : String → Table → Type 0
IsSingle server t =
    (i j : String) (a b : ServerOperation)
    → lookup i t ≡ some a
    → lookup j t ≡ some b
    → is_active server a ≡ true
    → is_active server b ≡ true
    → i ≡ j

pub some_injective {ℓ} : {A : Type ℓ} {x y : A} → some x ≡ some y → x ≡ y
some_injective h = cc

pub newest-none :
    (p : ServerOperation → Bool) (t : Table) (k : String) (op : ServerOperation)
    → newest p t ≡ none
    → lookup k t ≡ some op
    → p op ≡ false
unfolding newest lookup
newest-none p [] k op n h = cc
newest-none p ((j, o) ∷ t) k op n h = ground (arith, newest-none p t k op, eq_iff j k)

-- A row may be written when every active row is the one of its key, if it is to be active.
pub insert-IsSingle :
    (server k : String) (op : ServerOperation) (t : Table)
    → IsSingle server t
    → ((j : String) (b : ServerOperation)
        → lookup j t ≡ some b
        → is_active server b ≡ true
        → is_active server op ≡ true
        → j ≡ k)
    → IsSingle server (insert k op t)
unfolding IsSingle
insert-IsSingle server k op t h m = λ i j a b f g x y. elim (Bool-cases (str_eq k i)) [
  | inl p ↦ elim (Bool-cases (str_eq k j)) [
    | inl q ↦ sym (str_eq→eq k i p) ∙ str_eq→eq k j q
    | inr q ↦
        let e = some_injective (rw (lookup-insert, p) at f) in
        let g' = rw (lookup-insert, q) at g in
        sym (str_eq→eq k i p) ∙ sym (m j b g' y (rw (sym e) at x))
  ]
  | inr p ↦ elim (Bool-cases (str_eq k j)) [
    | inl q ↦
        let e = some_injective (rw (lookup-insert, q) at g) in
        let f' = rw (lookup-insert, p) at f in m i a f' x (rw (sym e) at y) ∙ str_eq→eq k j q
    | inr q ↦ h i j a b (rw (lookup-insert, p) at f) (rw (lookup-insert, q) at g) x y
  ]
]

pub save_new-IsSingle :
    (op : ServerOperation) (s : Service)
    → IsSingle s.server_id s.table
    → IsSingle s.server_id (save_new op s).0.table
unfolding save_new get_active save
save_new-IsSingle op s h = elim (Option-cases (get_active s.server_id s.table)) [
  | inr (a, p) ↦ rw (p, save_new) h
  | inl p ↦
      rw (p, save_new)
        (insert-IsSingle s.server_id op.operation_id op s.table h
          (λ j b f y z. ground (arith, newest-none (is_active s.server_id) s.table j b p f, y)))
]

pub single_row :
    (server : String) (t : Table)
    → IsSingle server t
    → (i j : String) (a b : ServerOperation) → lookup i t ≡ some a
    → lookup j t ≡ some b
    → is_active server a ≡ true
    → is_active server b ≡ true
    → i ≡ j
unfolding IsSingle
single_row server t h = h

-- A method that returns an active operation was called on one.
pub call-is_active :
    (server : String) (c : Call) (op op' : ServerOperation)
    → call c op ≡ ok op'
    → is_active server op' ≡ true
    → is_active server op ≡ true
unfolding call start begin_stage complete_stage fail_stage skip_stage confirm diverge
    update_observation
call-is_active server (to_start t) op op' h a = ground arith
call-is_active server _ op op' h a = ground arith

-- ===== src/Agent/Store/Mirror.antt =====
-- store/store.py: the table mirrors the index as long as its writes succeed.
use mathlib.Core.Path.{subst}
use craftcontrol.Base.{
  ℕ, ◌≡◌, refl, ◌∙◌, Bool, true, Option, none, some, List, [], ◌∷◌, String, arith, eq_iff, str_eq,
  if◌then◌else◌, Option-cases, Bool-cases, any, inl, inr,
}
use craftcontrol.Base.Dict.{Dict, lookup, contains, insert, remove, lookup-insert, lookup-remove}
use craftcontrol.Agent.Record.{OperationRecord, Columns, columns, new_record}
use craftcontrol.Agent.Store.{
  Store, persist, delete_db, get, create, update, evict_expired, expired_ids, drop_all, delete_all,
}

abbrev pub stored : Option OperationRecord → Option Columns
stored none = none
stored (some rec) = some (columns rec)

-- The record of each key carries the key, and the table, where there is one, has exactly the rows
-- of the records.
pub record IsMirror (s : Store) : Type 0 where
  pub keyed : (k : String) (rec : OperationRecord) → get k s ≡ some rec → rec.operation_id ≡ k
  pub same_rows :
      (table : Dict Columns)
      → s.conn ≡ some table
      → (k : String) → lookup k table ≡ stored (get k s)

-- A successful write of a record under its own key.
write-IsMirror :
    (rec : OperationRecord) (s : Store)
    → IsMirror s
    → IsMirror (persist true rec (record s { records = insert rec.operation_id rec s.records }))
unfolding persist get
write-IsMirror rec s m = record {
  keyed = λ k r h. ground (
    arith,
    lookup-insert rec.operation_id k rec s.records,
    eq_iff rec.operation_id k,
    m.keyed k r,
  );
  same_rows = λ table h k. elim (Option-cases s.conn) [
    | inl p ↦ ground arith
    | inr (t, p) ↦ ground (
      arith,
      lookup-insert rec.operation_id k rec s.records,
      lookup-insert rec.operation_id k (columns rec) t,
      m.same_rows t p k,
    )
  ];
}

-- `create` and `update` with a successful write keep the mirror.
pub create-IsMirror : (oid : String) (s : Store) → IsMirror s → IsMirror (create true oid s).0
unfolding create
create-IsMirror oid s m = elim (Bool-cases (contains oid s.records)) [
  | inl taken ↦ rw taken m
  | inr free ↦ rw free (write-IsMirror (new_record oid) s m)
]

pub update-IsMirror :
    (oid : String) (change : OperationRecord → OperationRecord) (s : Store)
    → ((r : OperationRecord) → (change r).operation_id ≡ r.operation_id)
    → IsMirror s
    → IsMirror (update true oid change s)
unfolding update
update-IsMirror oid change s same m = elim (Option-cases (lookup oid s.records)) [
  | inl p ↦ rw (p, update) m
  | inr (r, p) ↦
      let e : (change r).operation_id ≡ oid = same r ∙ (unfold get in m.keyed oid r p) in
      rw (p, update)
        (subst
          (λ k.
            IsMirror
              (persist true (change r) (record s { records = insert k (change r) s.records })))
          e (write-IsMirror (change r) s m))
]

conn-delete_all :
    (oids : List String) (s : Store) (table : Dict Columns)
    → s.conn ≡ some table
    → (delete_all (λ _. true) oids s).conn ≡ some (drop_all oids table)
unfolding delete_all delete_db drop_all
conn-delete_all [] s table h = h
conn-delete_all (oid ∷ oids) s table h =
    conn-delete_all oids (delete_db true oid s) (remove oid table) (ground arith)

conn-delete_all-none :
    (oids : List String) (s : Store) → s.conn ≡ none → (delete_all (λ _. true) oids s).conn ≡ none
unfolding delete_all delete_db
conn-delete_all-none [] s h = h
conn-delete_all-none (oid ∷ oids) s h =
    conn-delete_all-none oids (delete_db true oid s) (ground arith)

pub records-delete_all :
    (written : String → Bool) (oids : List String) (s : Store)
    → (delete_all written oids s).records ≡ s.records
unfolding delete_all delete_db
records-delete_all written [] s = refl
records-delete_all written (oid ∷ oids) s =
    records-delete_all written oids (delete_db (written oid) oid s) ∙ ground arith

pub lookup-drop_all {ℓ} :
    {V : Type ℓ} (k : String) (oids : List String) (d : Dict V)
    → lookup k (drop_all oids d) ≡ (if any (λ o. str_eq o k) oids then none else lookup k d)
unfolding drop_all
lookup-drop_all k [] d = refl
lookup-drop_all k (oid ∷ oids) d =
    lookup-drop_all k oids (remove oid d) ∙ ground (arith, lookup-remove oid k d)

-- Eviction with successful removals keeps the mirror.
pub evict_expired-IsMirror :
    (now : ℕ) (s : Store) → IsMirror s → IsMirror (evict_expired (λ _. true) now s)
unfolding evict_expired get
evict_expired-IsMirror now s m =
    let oids = expired_ids now s.records in
    let left : Store = record s { records = drop_all oids s.records } in
    record {
      keyed = λ k r h. ground (
        arith,
        records-delete_all (λ _. true) oids left,
        lookup-drop_all k oids s.records,
        m.keyed k r,
      );
      same_rows = λ table h k. elim (Option-cases s.conn) [
        | inl p ↦ ground (arith, conn-delete_all-none oids left p)
        | inr (t, p) ↦ ground (
          arith,
          conn-delete_all oids left t p,
          records-delete_all (λ _. true) oids left,
          lookup-drop_all k oids s.records,
          lookup-drop_all k oids t,
          m.same_rows t p k,
        )
      ];
    }

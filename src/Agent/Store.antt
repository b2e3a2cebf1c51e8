-- ===== src/Agent/Store.antt =====
-- store/store.py: `OperationStore`, an in-memory index over a SQLite table.
-- The lock makes each method one step. `conn` is `none` when the store runs in memory only. A write
-- to SQLite can fail, and the failure is logged and dropped: the argument `written` says whether
-- the write of that call succeeded.
pub mod Recovery
pub mod Mirror
pub mod Retention
use craftcontrol.Base.{
  ℕ, ◌+◌, Bool, true, false, Option, none, some, List, [], ◌∷◌, ◌*◌, String, ltb, if◌then◌else◌,
}
use craftcontrol.Base.Dict.{Dict, lookup, insert, remove, contains}
use craftcontrol.Agent.Record.{
  Status, running, done, error, crash_recovery, OperationRecord, new_record, Columns, db_row,
  from_row,
}

-- RESULT_RETENTION_SECONDS, in microseconds
abbrev pub result_retention : ℕ
result_retention = 600 * 1000000

-- The primary key of the table is `operation_id`, so a row stands under its key.
pub record Store : Type 0 where
  pub records : Dict OperationRecord
  pub conn : Option (Dict Columns)

-- `INSERT … ON CONFLICT(operation_id) DO UPDATE` through `_persist`
unfoldable pub persist : Bool → OperationRecord → Store → Store
unfolding db_row insert
persist written rec s = elim s.conn [
  | none ↦ s
  | some table ↦
      if written
      then (let (oid, row) = db_row rec in record s { conn = some (insert oid row table) })
      else s
]

-- `DELETE FROM operations WHERE operation_id = ?` through `_delete_db`
unfoldable pub delete_db : Bool → String → Store → Store
unfolding remove
delete_db written oid s = elim s.conn [
  | none ↦ s
  | some table ↦ if written then record s { conn = some (remove oid table) } else s
]

unfoldable pub get : String → Store → Option OperationRecord
unfolding lookup
get oid s = lookup oid s.records

-- `None` when the id is taken
unfoldable pub create : Bool → String → Store → Store × Option OperationRecord
unfolding lookup insert persist
create written oid s =
    let rec = new_record oid in
    if contains oid s.records
    then (s, none)
    else (persist written rec (record s { records = insert oid rec s.records }), some rec)

-- `update(operation_id, **kwargs)`: the keyword arguments are a function on the record
unfoldable pub update : Bool → String → (OperationRecord → OperationRecord) → Store → Store
unfolding lookup insert persist
update written oid change s = elim (lookup oid s.records) [
  | none ↦ s
  | some rec ↦
      persist written (change rec) (record s { records = insert oid (change rec) s.records })
]

-- Whether `evict_expired` takes a record out: `completed_at < now - RETENTION`.
abbrev pub expired : ℕ → OperationRecord → Bool
expired now rec = elim rec.completed_at [ none ↦ false | some t ↦ ltb (t + result_retention) now ]

abbrev pub expired_ids : ℕ → Dict OperationRecord → List String
expired_ids now [] = []
expired_ids now ((oid, rec) ∷ rs) =
    let rest = expired_ids now rs in if expired now rec then oid ∷ rest else rest

-- `del self._records[oid]` for each of the list
unfoldable pub drop_all {ℓ} : {V : Type ℓ} → List String → Dict V → Dict V
unfolding remove
drop_all [] rs = rs
drop_all (oid ∷ oids) rs = drop_all oids (remove oid rs)

unfoldable pub delete_all : (String → Bool) → List String → Store → Store
unfolding delete_db
delete_all written [] s = s
delete_all written (oid ∷ oids) s = delete_all written oids (delete_db (written oid) oid s)

unfoldable pub evict_expired : (String → Bool) → ℕ → Store → Store
unfolding drop_all delete_all
evict_expired written now s =
    let oids = expired_ids now s.records in
    delete_all written oids (record s { records = drop_all oids s.records })

-- What crash recovery writes to a record that was still running.
abbrev pub recovered : ℕ → OperationRecord → OperationRecord
recovered now rec = record rec {
  status = done;
  outcome = some error;
  error_code = some crash_recovery;
  detail = some "Agent restarted while operation was in progress";
  completed_at = some now;
}

abbrev pub is_running : Status → Bool
is_running running = true
is_running done = false

-- The first loop of `_load_and_recover`: every row becomes a record. The keys of the rows are
-- distinct, so each assignment to the dict adds an entry at its end.
unfoldable pub load : Dict Columns → Dict OperationRecord
unfolding from_row
load [] = []
load ((oid, row) ∷ rows) = (oid, from_row (oid, row)) ∷ load rows

-- The second loop, over the records that were running.
unfoldable pub recover_one : Bool → ℕ → String → OperationRecord → Store → Store
unfolding insert persist
recover_one written now oid rec s =
    if is_running rec.status
    then persist written (recovered now rec)
        (record s { records = insert oid (recovered now rec) s.records })
    else s

unfoldable pub recover : (String → Bool) → ℕ → Dict OperationRecord → Store → Store
recover written now [] s = s
recover written now ((oid, rec) ∷ rs) s =
    recover written now rs (recover_one (written oid) now oid rec s)

-- `_load_and_recover`: the store after a restart on the rows of the table
unfoldable pub load_and_recover : (String → Bool) → ℕ → Dict Columns → Store
unfolding load recover recover_one
load_and_recover written now rows =
    recover written now (load rows) (record { records = load rows; conn = some rows })

-- `OperationStore(None)`: in memory only
abbrev pub in_memory : Store
in_memory = record { records = []; conn = none }

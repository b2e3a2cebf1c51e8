-- ===== src/Agent/Store/Recovery.antt =====
-- store/store.py: a restart of the agent on the table that it left.
use craftcontrol.Base.{
  ℕ, ◌≡◌, refl, Bool, Option, none, some, [], ◌∷◌, String, arith, eq_iff, str_eq, if◌then◌else◌,
  Option-cases, inl, inr,
}
use craftcontrol.Base.Dict.{Dict, lookup, insert, lookup-insert, IsDistinct}
use craftcontrol.Agent.Record.{
  OperationRecord, Status, Outcome, ErrorCode, Columns, columns, from_row,
}
use craftcontrol.Agent.Store.{
  Store, get, load, recover, recover_one, load_and_recover, recovered, is_running, persist,
}
use craftcontrol.Agent.Store.Mirror.{IsMirror}

-- What a record is after a restart.
abbrev pub restarted : ℕ → Option OperationRecord → Option OperationRecord
restarted now none = none
restarted now (some rec) = some (
    if is_running rec.status
    then record rec {
      status = Status.done;
      outcome = some Outcome.error;
      error_code = some ErrorCode.crash_recovery;
      detail = some "Agent restarted while operation was in progress";
      completed_at = some now;
    }
    else rec)

abbrev read_row : String → Option Columns → Option OperationRecord
read_row k none = none
read_row k (some row) = some (from_row (k, row))

lookup-load : (k : String) (rows : Dict Columns) → lookup k (load rows) ≡ read_row k (lookup k rows)
unfolding lookup load
lookup-load k [] = refl
lookup-load k ((oid, row) ∷ rows) = ground (arith, eq_iff oid k, lookup-load k rows)

load-IsDistinct : (rows : Dict Columns) → IsDistinct rows → IsDistinct (load rows)
unfolding load
load-IsDistinct [] d = tt
load-IsDistinct ((oid, row) ∷ rows) d =
    (ground (arith, lookup-load oid rows, d.0), load-IsDistinct rows d.1)

records-persist :
    (w : Bool) (rec : OperationRecord) (s : Store) → (persist w rec s).records ≡ s.records
unfolding persist
records-persist w rec s = ground arith

-- The second loop rewrites the running records that it goes through, and no other.
abbrev rewritten : ℕ → Option OperationRecord → Option OperationRecord → Option OperationRecord
rewritten now none old = old
rewritten now (some rec) old = if is_running rec.status then some (recovered now rec) else old

lookup-recover_one :
    (w : Bool) (now : ℕ) (oid : String) (rec : OperationRecord) (s : Store) (k : String)
    → lookup k (recover_one w now oid rec s).records
      ≡ (if str_eq oid k then rewritten now (some rec) (lookup k s.records) else lookup k s.records)
unfolding recover_one
lookup-recover_one w now oid rec s k = ground (
  arith,
  records-persist w (recovered now rec)
      (record s { records = insert oid (recovered now rec) s.records }),
  lookup-insert oid k (recovered now rec) s.records,
)

lookup-recover :
    (written : String → Bool) (now : ℕ) (rs : Dict OperationRecord) (s : Store) (k : String)
    → IsDistinct rs
    → lookup k (recover written now rs s).records ≡ rewritten now (lookup k rs) (lookup k s.records)
unfolding lookup recover
lookup-recover written now [] s k d = refl
lookup-recover written now ((oid, rec) ∷ rs) s k d = ground (
  arith,
  lookup-recover written now rs (recover_one (written oid) now oid rec s) k d.1,
  lookup-recover_one (written oid) now oid rec s k,
  eq_iff oid k,
  d.0,
)

from_row-columns : (rec : OperationRecord) → from_row (rec.operation_id, columns rec) ≡ rec
unfolding from_row columns
from_row-columns rec = ground arith

-- After a restart on the table of a store whose writes had all succeeded, every record is back
-- under its key: those that were finished as they were, those that were running as finished with
-- the error `CRASH_RECOVERY`. No other record appears. This holds whether or not the writes of the
-- recovery itself succeed.
pub get-load_and_recover :
    (s : Store) (table : Dict Columns) (written : String → Bool) (now : ℕ) (k : String)
    → IsMirror s
    → s.conn ≡ some table
    → IsDistinct table
    → get k (load_and_recover written now table) ≡ restarted now (get k s)
unfolding get load_and_recover
get-load_and_recover s table written now k m c d = elim (Option-cases (lookup k s.records)) [
  | inl p ↦ ground (
    arith,
    lookup-recover written now (load table) (record { records = load table; conn = some table }) k
        (load-IsDistinct table d),
    lookup-load k table,
    m.same_rows table c k,
  )
  | inr (rec, p) ↦ ground (
    arith,
    lookup-recover written now (load table) (record { records = load table; conn = some table }) k
        (load-IsDistinct table d),
    lookup-load k table,
    m.same_rows table c k,
    m.keyed k rec p,
    from_row-columns rec,
  )
]

-- ===== src/Agent/Store/Retention.antt =====
-- store/store.py: what `evict_expired` takes out of the index.
use craftcontrol.Base.{
  ℕ, ◌≡◌, refl, Bool, false, Option, none, some, [], ◌∷◌, String, arith, eq_iff, str_eq,
  if◌then◌else◌, any,
}
use craftcontrol.Base.Dict.{Dict, lookup, IsDistinct}
use craftcontrol.Agent.Record.{OperationRecord}
use craftcontrol.Agent.Store.{Store, get, evict_expired, expired, expired_ids, drop_all}
use craftcontrol.Agent.Store.Mirror.{records-delete_all, lookup-drop_all}

abbrev expired_at : ℕ → Option OperationRecord → Bool
expired_at now none = false
expired_at now (some rec) = expired now rec

any-expired_ids :
    (now : ℕ) (k : String) (rs : Dict OperationRecord)
    → IsDistinct rs
    → any (λ o. str_eq o k) (expired_ids now rs) ≡ expired_at now (lookup k rs)
unfolding lookup
any-expired_ids now k [] d = refl
any-expired_ids now k ((oid, rec) ∷ rs) d =
    ground (arith, eq_iff oid k, any-expired_ids now k rs d.1, d.0)

-- The records that are in the retention window or still running.
abbrev pub retained : ℕ → Option OperationRecord → Option OperationRecord
retained now none = none
retained now (some rec) = if expired now rec then none else some rec

-- After an eviction, whether the deletions in SQLite succeed or not, a lookup finds exactly the
-- records that are not expired, unchanged.
pub get-evict_expired :
    (written : String → Bool) (now : ℕ) (s : Store) (k : String)
    → IsDistinct s.records
    → get k (evict_expired written now s) ≡ retained now (get k s)
unfolding get evict_expired
get-evict_expired written now s k d =
    let oids = expired_ids now s.records in
    ground (
      arith,
      records-delete_all written oids (record s { records = drop_all oids s.records }),
      lookup-drop_all k oids s.records,
      any-expired_ids now k s.records d,
    )

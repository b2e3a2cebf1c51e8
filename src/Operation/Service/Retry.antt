-- ===== src/Operation/Service/Retry.antt =====
-- operations/service.py: what a retry creates.
use craftcontrol.Base.{
  ℕ, ◌≡◌, refl, sym, if◌then◌else◌, true, false, Option, none, some, String, arith, str_eq,
  str_eq_refl, Bool-cases, Option-cases, inl, inr,
}
use craftcontrol.Base.Dict.{lookup, lookup-insert}
use craftcontrol.Operation.Lifecycle.{ServerOperation, OperationState, create}
use craftcontrol.Operation.Service.{
  Table, Service, created, save, save_new, retry_of, retryable, retry_operation, get_active,
  start_worker,
}

-- What a retry `op` of the operation `id` has, and the table that it leaves.
pub record IsRetry (uuid id : String) (s s' : Service) (origin op : ServerOperation) : Type 0 where
  pub failed_before : retryable origin.state ≡ true
  pub idle_before : get_active s.server_id s.table ≡ none
  pub linked : op.parent_operation_id ≡ some id
  pub same_changes : op.requested_changes ≡ origin.requested_changes
  pub pending_now : op.state ≡ OperationState.pending
  pub stored : lookup uuid s'.table ≡ some op
  pub preserved : str_eq uuid id ≡ false → lookup id s'.table ≡ some origin

created_injective : {x y : ServerOperation} → created x ≡ created y → x ≡ y
created_injective h = cc

lookup-save :
    (k : String) (op : ServerOperation) (t : Table)
    → lookup k (save op t) ≡ (if str_eq op.operation_id k then some op else lookup k t)
unfolding save
lookup-save k op t = lookup-insert op.operation_id k op t

saved-IsRetry :
    (uuid : String) (now : ℕ) (id : String) (correlation : Option String) (s : Service)
    (origin op : ServerOperation)
    → lookup id s.table ≡ some origin
    → retryable origin.state ≡ true
    → (start_worker (save_new (retry_of uuid now s.server_id correlation origin id) s)).1
      ≡ created op
    → IsRetry uuid id s
        (start_worker (save_new (retry_of uuid now s.server_id correlation origin id) s)).0
        origin
        op
unfolding save_new create
saved-IsRetry uuid now id correlation s origin op f r h =
    let new = retry_of uuid now s.server_id correlation origin id in
    elim (Option-cases (get_active s.server_id s.table)) [
      | inr (a, p) ↦ ground (arith, rw (p, save_new) at h)
      | inl p ↦
          let e = created_injective (rw (p, save_new) at h) in
          rw (p, save_new)
            (record {
              failed_before = r;
              idle_before = p;
              linked = rw (sym e) refl;
              same_changes = rw (sym e) refl;
              pending_now = rw (sym e) refl;
              stored = ground (arith, lookup-save uuid new s.table, str_eq_refl uuid, e);
              preserved = λ n. ground (arith, lookup-save id new s.table, n, f);
            })
    ]

-- A retry that is accepted creates a new pending operation with the changes of the failed or
-- divergent one and a link to it, while no operation of the server was active, and leaves the
-- original as it was, provided that the new id is another one.
pub retry_operation-IsRetry :
    (uuid : String) (now : ℕ) (id : String) (correlation : Option String) (s : Service)
    (origin op : ServerOperation)
    → lookup id s.table ≡ some origin
    → (retry_operation uuid now id correlation s).1 ≡ created op
    → IsRetry uuid id s (retry_operation uuid now id correlation s).0 origin op
unfolding retry_operation
retry_operation-IsRetry uuid now id correlation s origin op f h =
    elim (Bool-cases (str_eq origin.server_id s.server_id)) [
      | inr n ↦ ground (arith, rw (f, retry_operation, n) at h)
      | inl y ↦ elim (Bool-cases (retryable origin.state)) [
        | inr n ↦ ground (arith, rw (f, retry_operation, y, n) at h)
        | inl z ↦
            rw (f, retry_operation)
              (rw (y, retry_operation)
                (rw (z, retry_operation)
                  (saved-IsRetry uuid now id correlation s origin op f z
                    (rw (f, retry_operation, y, z) at h))))
      ]
    ]

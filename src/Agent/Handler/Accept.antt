-- ===== src/Agent/Handler/Accept.antt =====
-- http/handler.py: what `_handle_execute` does with a valid request, branch by branch.
use craftcontrol.Base.{
  ℕ, ◌≡◌, refl, Bool, false, none, some, [], ◌∷◌, ◌++◌, String, arith, ltb, length, if◌then◌else◌,
  str_eq, str_eq_refl, Bool-cases, inl, inr,
}
use craftcontrol.Base.Dict.{insert, lookup-insert}
use craftcontrol.Agent.Record.{OperationRecord, new_record}
use craftcontrol.Agent.Store.{Store, get, create, persist, is_running}
use craftcontrol.Agent.Executor.Verdict.{get-update}
use craftcontrol.Agent.Queue.{QueuedOperation, OperationQueue, enqueue}
use craftcontrol.Agent.Handler.{
  Server, conflict, accepted, at_capacity, accept, dispatch, set_queue_full,
}

records-persist :
    (w : Bool) (rec : OperationRecord) (s : Store) → (persist w rec s).records ≡ s.records
unfolding persist
records-persist w rec s = ground arith

-- The store after the creation of a record under a free key.
pub get-create :
    (w : Bool) (oid : String) (s : Store) (k : String)
    → get oid s ≡ none
    → get k (create w oid s).0 ≡ (if str_eq oid k then some (new_record oid) else get k s)
unfolding get create
get-create w oid s k h = ground (
  arith,
  records-persist w (new_record oid) (record s { records = insert oid (new_record oid) s.records }),
  lookup-insert oid k (new_record oid) s.records,
)

create_made :
    (w : Bool) (oid : String) (s : Store)
    → get oid s ≡ none
    → (create w oid s).1 ≡ some (new_record oid)
unfolding get create
create_made w oid s h = ground arith

abbrev pub has_room : OperationQueue → Bool
has_room q = ltb (length q.items) q.maxsize

pub accept_free :
    (written : Bool) (now : ℕ) (item : QueuedOperation) (s : Server)
    → get item.operation_id s.store ≡ none
    → accept written now item s
      ≡ dispatch written now item
          (record s { store = (create written item.operation_id s.store).0 })
unfolding accept
accept_free written now item s h =
    rw (h, accept) (rw (create_made written item.operation_id s.store h, accept))

-- A valid request for an id that is not in the store, at a server with a queue: with room in the
-- queue the answer is 202, the item stands at the queue's end and the new record is running; with
-- none the answer is 503, the queue is as it was and the record is finished with the error
-- `queue_full`. No other record changes.
pub accept_new :
    (written : Bool) (now : ℕ) (item : QueuedOperation) (s : Server) (q : OperationQueue)
    → get item.operation_id s.store ≡ none
    → s.operation_queue ≡ some q
    → let oid = item.operation_id in
      let (s', r) = accept written now item s in
      (r ≡ (if has_room q then accepted oid else at_capacity))
      × (s'.operation_queue
          ≡ some (if has_room q then record q { items = q.items ++ item ∷ [] } else q))
      × (get oid s'.store
          ≡ some (if has_room q then new_record oid else set_queue_full now (new_record oid)))
      × ((k : String) → str_eq oid k ≡ false → get k s'.store ≡ get k s.store)
unfolding dispatch enqueue
accept_new written now item s q h c =
    let oid = item.operation_id in
    let store' = (create written oid s.store).0 in
    elim (Bool-cases (has_room q)) [
      | inl room ↦ rw (accept_free written now item s h) (
          rw (c, dispatch)
            (rw (room, enqueue)
              (
                refl,
                refl,
                ground (arith, get-create written oid s.store oid h, str_eq_refl oid),
                λ k n. ground (arith, get-create written oid s.store k h),
              )))
      | inr full ↦ rw (accept_free written now item s h) (
          rw (c, dispatch)
            (rw (full, enqueue)
              (
                refl,
                c,
                ground (
                  arith,
                  get-update written oid (set_queue_full now) store' oid,
                  get-create written oid s.store oid h,
                  str_eq_refl oid,
                ),
                λ k n. ground (
                  arith,
                  get-update written oid (set_queue_full now) store' k,
                  get-create written oid s.store k h,
                ),
              )))
    ]

-- A valid request for an id that is in the store changes nothing: the answer is 409 while the
-- operation is running, and 202 once it is finished.
pub accept_known :
    (written : Bool) (now : ℕ) (item : QueuedOperation) (s : Server) (rec : OperationRecord)
    → get item.operation_id s.store ≡ some rec
    → accept written now item s ≡ (
      s,
      if is_running rec.status then conflict item.operation_id else accepted item.operation_id,
    )
unfolding accept
accept_known written now item s rec h =
    rw (h, accept) (elim (Bool-cases (is_running rec.status)) [ inl r ↦ rw r | inr d ↦ rw d ])

-- ===== src/Agent/Queue.antt =====
-- runtime/queue_worker.py: the bounded queue of accepted operations and its workers.
-- `queue.Queue` is a list with the oldest item at its head. A worker thread is a step that takes
-- the head and runs the executor on it to its end; the steps of the workers interleave with those
-- of `enqueue` as whole steps.
pub mod Drain
use craftcontrol.Base.{
  ℕ, zero, suc, Bool, true, false, Option, none, some, List, [], ◌∷◌, ◌++◌, String, ltb, length,
  if◌then◌else◌,
}
use craftcontrol.Base.Dict.{Dict}
use craftcontrol.Base.Value.{Value}
use craftcontrol.Agent.Executor.{Environment, World, run}

-- `_QueuedOperation`; of the record the executor reads the id alone
pub record QueuedOperation : Type 0 where
  pub operation_id : String
  pub intended_state : Dict Value
  pub health_timeout : ℕ
  pub restart_timeout : ℕ

pub record OperationQueue : Type 0 where
  pub items : List QueuedOperation
  pub maxsize : ℕ
  pub worker_count : ℕ

-- `OperationQueue(workers, queue_size)`; `none` stands for the `ValueError`
unfoldable pub new_queue : ℕ → ℕ → Option OperationQueue
new_queue workers queue_size =
    if ltb workers 1
    then none
    else if ltb queue_size 1
    then none
    else some (record { items = []; maxsize = queue_size; worker_count = workers })

-- `enqueue`: `put_nowait` refuses when the queue is full
unfoldable pub enqueue : QueuedOperation → OperationQueue → OperationQueue × Bool
enqueue item q =
    if ltb (length q.items) q.maxsize
    then (record q { items = q.items ++ item ∷ [] }, true)
    else (q, false)

-- `queue_depth`
abbrev pub queue_depth : OperationQueue → ℕ
queue_depth q = length q.items

module _ (str : Value → String) (env : String → Environment) where
  -- One round of `_worker_loop`; it waits on an empty queue. The environment of a run is that of
  -- its operation.
  unfoldable pub work : OperationQueue × World → OperationQueue × World
  work (q, w) = elim q.items [
    | [] ↦ (q, w)
    | item ∷ rest ↦ (
      record q { items = rest },
      run str (env item.operation_id) item.operation_id item.intended_state item.health_timeout
          item.restart_timeout w,
    )
  ]

  unfoldable pub work_times : ℕ → OperationQueue × World → OperationQueue × World
  work_times zero s = s
  work_times (suc n) s = work_times n (work s)

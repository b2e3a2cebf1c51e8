-- ===== src/Operation/Worker/Threads.antt =====
-- operations/service.py and operations/repository.py: the threads of one process on the table. A thread
-- calls the methods of the lifecycle on its own copy of the operation, and writes it with `save` or
-- `update_stage` whatever the row holds by then; a reclaim spares the operations that have a thread. A
-- thread is live from the request that starts it to its end. A reclaim is one step on the row.
mod Copies
mod Steps
mod Reconciled
pub mod Single
use craftcontrol.Base.{Bool, ℕ, Option, none, some, List, [], ◌∷◌, String, if◌then◌else◌}
use craftcontrol.Base.Dict.{Dict, lookup, insert, remove, contains}
use craftcontrol.Base.Value.{Value}
use craftcontrol.Operation.Lifecycle.{
  OperationState, Result, ok, err, ServerOperation, OperationStage, fail_stage,
}
use craftcontrol.Operation.Lifecycle.Machine.{Call, call, after}
use craftcontrol.Operation.Service.{
  Table, Service, Answer, save, update_stage, fetch_and_update, apply_restart_required,
  retry_operation,
}
use craftcontrol.Operation.Worker.State.{Environment, World}
use craftcontrol.Operation.Worker.Reconcile.{apply_reconciliation}

-- A service with the operations of its live threads.
pub record Process : Type 0 where
  pub service : Service
  pub copies : Dict ServerOperation

-- What a thread does to its copy: a method of the lifecycle, the normalized changes of REVIEW, or what
-- the reconciliation after a failure finds.
pub data Action : Type 0 where
  called : (c : Call) → Action
  normalized : (changes : Dict Value) → Action
  concluded : (observation : Dict Value) (diverges : Bool) → Action

unfoldable pub perform : Action → ServerOperation → ServerOperation
unfolding call
perform (called c) op = after op (call c op)
perform (normalized changes) op = record op { requested_changes = changes }
perform (concluded observation diverges) op = record op {
  state = if diverges then OperationState.divergent else op.state;
  observation = observation;
}

-- The end that a reclaim gives an operation.
abbrev pub ended : Dict Value → Bool → Result ServerOperation → Result ServerOperation
ended observation diverges (ok op) = ok (perform (concluded observation diverges) op)
ended observation diverges (err e) = err e

-- How a thread writes its copy; a write can fail.
pub data Write : Type 0 where
  whole : Write
  stage_of : OperationStage → Write
  lost : Write

unfoldable pub write : Write → ServerOperation → Table → Table
unfolding save update_stage
write whole op t = save op t
write (stage_of s) op t = update_stage op s t
write lost op t = t

-- A request to the service, a step of a thread, or the end of one.
pub data Request : Type 0 where
  change : (uuid : String) (now : ℕ) (changes : Dict Value) (correlation : Option String) → Request
  retry : (uuid : String) (now : ℕ) (id : String) (correlation : Option String) → Request
  act : (id : String) (action : Action) (how : Write) → Request
  finish : (id : String) → Request
  reclaim :
      (id : String) (stage : OperationStage) (reason : String) (t u v : ℕ)
      (observation : Dict Value) (diverges : Bool)
      → Request
  reconcile : (env : Environment) (id : String) (observation : Dict Value) (world : World) → Request

-- The thread that an accepted request starts has the new operation.
abbrev pub enrolled : Service × Answer → Dict ServerOperation → Process
enrolled (s, Answer.created op) cs = record { service = s; copies = insert op.operation_id op cs }
enrolled (s, Answer.rejected e) cs = record { service = s; copies = cs }

abbrev pub acted : Action → Write → Option ServerOperation → Process → Process
acted a how none p = p
acted a how (some op) p =
    let op' = perform a op in
    record {
      service = record p.service { table = write how op' p.service.table };
      copies = insert op'.operation_id op' p.copies;
    }

unfoldable pub request : Request → Process → Process
unfolding apply_restart_required retry_operation fetch_and_update lookup insert remove write perform
    fail_stage
request (change uuid now changes correlation) p =
    enrolled (apply_restart_required uuid now changes correlation p.service) p.copies
request (retry uuid now id correlation) p =
    enrolled (retry_operation uuid now id correlation p.service) p.copies
request (act id a how) p = acted a how (lookup id p.copies) p
request (finish id) p = record p { copies = remove id p.copies }
request (reclaim id stage reason t u v observation diverges) p = record p {
  service = record p.service {
    table =
        if contains id p.copies
        then p.service.table
        else fetch_and_update id
            (λ op. ended observation diverges (fail_stage stage reason none t u v op))
            p.service.table;
  };
}
request (reconcile env id observation world) p = record p {
  service = record p.service {
    table =
        (apply_reconciliation env p.service.server_id id observation
          (record world { table = p.service.table })).1.table;
  };
}

unfoldable pub requests : List Request → Process → Process
unfolding request
requests [] p = p
requests (r ∷ rs) p = requests rs (request r p)

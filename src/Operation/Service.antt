-- ===== src/Operation/Service.antt =====
-- operations/repository.py and operations/service.py: the table of operations, and the requests
-- that create them. The table has one row for each operation id; the rows of the stages stand in
-- their operation. A method that holds the service's lock is one step. The worker thread that a
-- request starts is recorded by its operation.
pub mod Single
pub mod Retry
pub mod Listing
pub mod Stage
pub mod Scenarios
use craftcontrol.Base.{
  ℕ, Bool, true, false, Option, none, some, List, [], ◌∷◌, ◌++◌, String, not, ◌&&◌, ltb, str_eq,
  if◌then◌else◌, find,
}
use craftcontrol.Base.Dict.{Dict, lookup, insert}
use craftcontrol.Base.Value.{Value}
use craftcontrol.Operation.Lifecycle.{
  ServerOperation, OperationState, OperationStage, StageRecord, Result, ok, err, create,
  is_terminal, is_empty, modify_stage, same_stage,
}

abbrev pub Table : Type 0
Table = Dict ServerOperation

-- `save` through `_upsert`: a row is replaced, or added
unfoldable pub save : ServerOperation → Table → Table
unfolding insert
save op t = insert op.operation_id op t

-- `SELECT … WHERE … ORDER BY created_at DESC LIMIT 1`
unfoldable pub newest : (ServerOperation → Bool) → Table → Option ServerOperation
newest p [] = none
newest p ((k, op) ∷ t) =
    let rest = newest p t in
    if p op
    then elim rest [
      | none ↦ some op
      | some o ↦ if ltb op.created_at o.created_at then some o else some op
    ]
    else rest

-- `server_id=? AND state NOT IN (…)`
abbrev pub is_active : String → ServerOperation → Bool
is_active server op = str_eq op.server_id server && not (is_terminal op.state)

unfoldable pub get_active : String → Table → Option ServerOperation
get_active server t = newest (is_active server) t

unfoldable pub get_latest : String → Table → Option ServerOperation
get_latest server t = newest (λ op. str_eq op.server_id server) t

-- `fetch_and_update`: the modifier runs on the row inside the write transaction; one that raises
-- rolls it back
unfoldable pub fetch_and_update :
    String → (ServerOperation → Result ServerOperation) → Table → Table
unfolding lookup insert
fetch_and_update id modifier t = elim (lookup id t) [
  | none ↦ t
  | some op ↦ elim (modifier op) [ err e ↦ t | ok op' ↦ insert id op' t ]
]

-- The columns of an operation's row that `update_stage` sets, with the row of one stage.
abbrev pub write_stage :
    ServerOperation → OperationStage → StageRecord → ServerOperation → ServerOperation
write_stage op stage r old = elim (modify_stage stage (λ _. r) old.stages) [
  | err e ↦ old
  | ok stages ↦ record old {
    stages = stages;
    state = op.state;
    updated_at = op.updated_at;
    completed_at = op.completed_at;
    terminal_error = op.terminal_error;
    observation = op.observation;
  }
]

-- `update_stage` of an operation that has its row and the rows of its stages
unfoldable pub update_stage : ServerOperation → OperationStage → Table → Table
unfolding lookup insert modify_stage
update_stage op stage t = elim (find (λ r. same_stage r.stage stage) op.stages) [
  | none ↦ t
  | some r ↦ elim (lookup op.operation_id t) [
    | none ↦ t
    | some old ↦ insert op.operation_id (write_stage op stage r old) t
  ]
]

pub record Service : Type 0 where
  pub server_id : String
  pub table : Table
  pub started : List ServerOperation

-- `ConflictingOperationError` and the three cases of `ValueError`
pub data Rejection : Type 0 where
  conflicting : String → OperationState → Rejection
  not_found other_server : String → Rejection
  not_retryable : String → OperationState → Rejection

pub data Answer : Type 0 where
  created : ServerOperation → Answer
  rejected : Rejection → Answer

-- A new operation, saved while no operation of the server is active.
unfoldable pub save_new : ServerOperation → Service → Service × Answer
unfolding save
save_new op s = elim (get_active s.server_id s.table) [
  | some active ↦ (s, rejected (conflicting active.operation_id active.state))
  | none ↦ (record s { table = save op s.table }, created op)
]

-- `_create_or_reject`
unfoldable pub create_or_reject :
    String → ℕ → Dict Value → Option String → Option String → Service → Service × Answer
unfolding create save_new
create_or_reject uuid now changes correlation parent s =
    save_new (create uuid now s.server_id changes correlation parent) s

-- The start of the worker thread, once an operation is created.
abbrev pub start_worker : Service × Answer → Service × Answer
start_worker (s, rejected r) = (s, rejected r)
start_worker (s, created op) = (record s { started = s.started ++ op ∷ [] }, created op)

unfoldable pub apply_restart_required :
    String → ℕ → Dict Value → Option String → Service → Service × Answer
unfolding create_or_reject
apply_restart_required uuid now changes correlation s =
    start_worker (create_or_reject uuid now changes correlation none s)

abbrev pub retryable : OperationState → Bool
retryable OperationState.failed = true
retryable OperationState.divergent = true
retryable _ = false

-- `correlation_id or origin.correlation_id`
abbrev pub or_else : Option String → Option String → Option String
or_else none other = other
or_else (some t) other = if is_empty t then other else some t

abbrev pub retry_of :
    String → ℕ → String → Option String → ServerOperation → String → ServerOperation
retry_of uuid now server correlation origin id =
    create uuid now server origin.requested_changes (or_else correlation origin.correlation_id)
      (some id)

unfoldable pub retry_operation : String → ℕ → String → Option String → Service → Service × Answer
unfolding lookup save_new create
retry_operation uuid now id correlation s = elim (lookup id s.table) [
  | none ↦ (s, rejected (not_found id))
  | some origin ↦
      if not (str_eq origin.server_id s.server_id)
      then (s, rejected (other_server id))
      else if not (retryable origin.state)
      then (s, rejected (not_retryable id origin.state))
      else start_worker (save_new (retry_of uuid now s.server_id correlation origin id) s)
]

-- ===== src/Operation/Lifecycle/Names.antt =====
-- operations/lifecycle.py: the members' values, as they stand in the database and in payloads.
use craftcontrol.Base.{◌≡◌, refl, Option, none, some, String, str_eq, if◌then◌else◌}
use craftcontrol.Operation.Lifecycle.{
  OperationState, OperationStage, StageResult, review, backup_verify, prepare, restart, health_wait,
  verify, confirm_stage,
}

-- `OperationState.value`
unfoldable pub state_value : OperationState → String
state_value OperationState.pending = "pending"
state_value OperationState.running = "running"
state_value OperationState.confirmed = "confirmed"
state_value OperationState.failed = "failed"
state_value OperationState.divergent = "divergent"

-- `OperationState(value)`; `none` stands for the `ValueError`
unfoldable pub state_of : String → Option OperationState
state_of s =
    if str_eq s "pending"
    then some OperationState.pending
    else if str_eq s "running"
    then some OperationState.running
    else if str_eq s "confirmed"
    then some OperationState.confirmed
    else if str_eq s "failed"
    then some OperationState.failed
    else if str_eq s "divergent"
    then some OperationState.divergent
    else none

unfoldable pub stage_value : OperationStage → String
stage_value review = "review"
stage_value backup_verify = "backup_verify"
stage_value prepare = "prepare"
stage_value restart = "restart"
stage_value health_wait = "health_wait"
stage_value verify = "verify"
stage_value confirm_stage = "confirm"

unfoldable pub stage_of : String → Option OperationStage
stage_of s =
    if str_eq s "review"
    then some review
    else if str_eq s "backup_verify"
    then some backup_verify
    else if str_eq s "prepare"
    then some prepare
    else if str_eq s "restart"
    then some restart
    else if str_eq s "health_wait"
    then some health_wait
    else if str_eq s "verify"
    then some verify
    else if str_eq s "confirm"
    then some confirm_stage
    else none

unfoldable pub result_value : StageResult → String
result_value StageResult.pending = "pending"
result_value StageResult.running = "running"
result_value StageResult.completed = "completed"
result_value StageResult.failed = "failed"
result_value StageResult.skipped = "skipped"

unfoldable pub result_of : String → Option StageResult
result_of s =
    if str_eq s "pending"
    then some StageResult.pending
    else if str_eq s "running"
    then some StageResult.running
    else if str_eq s "completed"
    then some StageResult.completed
    else if str_eq s "failed"
    then some StageResult.failed
    else if str_eq s "skipped"
    then some StageResult.skipped
    else none

pub state_of-state_value : (s : OperationState) → state_of (state_value s) ≡ some s
unfolding state_of state_value
state_of-state_value OperationState.pending = refl
state_of-state_value _ = refl

pub stage_of-stage_value : (s : OperationStage) → stage_of (stage_value s) ≡ some s
unfolding stage_of stage_value
stage_of-stage_value review = refl
stage_of-stage_value _ = refl

pub result_of-result_value : (r : StageResult) → result_of (result_value r) ≡ some r
unfolding result_of result_value
result_of-result_value StageResult.pending = refl
result_of-result_value _ = refl

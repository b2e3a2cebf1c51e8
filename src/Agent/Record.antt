-- ===== src/Agent/Record.antt =====
-- store/store.py: `OperationRecord`, its database row and its two payloads.
-- The texts of `status`, `outcome` and the stages come from fixed sets in the code, so they are
-- enumerations here; a time is a number of microseconds.
use craftcontrol.Base.{
  ℕ, ◌≡◌, Bool, true, false, Option, none, some, [], ◌∷◌, String, arith, ◌==◌, not,
}
use craftcontrol.Base.Dict.{Dict}
use craftcontrol.Base.Value.{Value, null, bool, text}

pub data Status : Type 0 where
  running done : Status

pub data Outcome : Type 0 where
  success error : Outcome

pub data Stage : Type 0 where
  prepare restart health_wait : Stage

pub data ErrorCode : Type 0 where
  crash_recovery preparation_write_failed restart_timeout restart_command_failed : ErrorCode
  health_wait_error health_probe_timeout queue_full : ErrorCode

pub record OperationRecord : Type 0 where
  pub operation_id : String
  pub status : Status
  pub current_stage : Option Stage
  pub outcome : Option Outcome
  pub executor_ref : Option String
  pub health_reached : Option Bool
  pub failed_stage : Option Stage
  pub detail : Option String
  pub error_code : Option ErrorCode
  pub exception_type : Option String
  pub completed_at : Option ℕ

-- `OperationRecord(operation_id)`
abbrev pub new_record : String → OperationRecord
new_record oid = record {
  operation_id = oid;
  status = running;
  current_stage = some prepare;
  outcome = none;
  executor_ref = none;
  health_reached = none;
  failed_stage = none;
  detail = none;
  error_code = none;
  exception_type = none;
  completed_at = none;
}

-- The columns of a row of the table `operations` beside its primary key `operation_id`;
-- `health_reached` is an INTEGER.
pub record Columns : Type 0 where
  pub status : Status
  pub current_stage : Option Stage
  pub outcome : Option Outcome
  pub executor_ref : Option String
  pub health_reached : Option ℕ
  pub failed_stage : Option Stage
  pub detail : Option String
  pub error_code : Option ErrorCode
  pub exception_type : Option String
  pub completed_at : Option ℕ

abbrev int_of_bool : Option Bool → Option ℕ
int_of_bool none = none
int_of_bool (some true) = some 1
int_of_bool (some false) = some 0

abbrev bool_of_int : Option ℕ → Option Bool
bool_of_int none = none
bool_of_int (some n) = some (not (n == 0))

unfoldable pub columns : OperationRecord → Columns
columns r = record {
  status = r.status;
  current_stage = r.current_stage;
  outcome = r.outcome;
  executor_ref = r.executor_ref;
  health_reached = int_of_bool r.health_reached;
  failed_stage = r.failed_stage;
  detail = r.detail;
  error_code = r.error_code;
  exception_type = r.exception_type;
  completed_at = r.completed_at;
}

-- `_db_row`: the key and the other columns
unfoldable pub db_row : OperationRecord → String × Columns
unfolding columns
db_row r = (r.operation_id, columns r)

unfoldable pub from_row : String × Columns → OperationRecord
from_row (oid, r) = record {
  operation_id = oid;
  status = r.status;
  current_stage = r.current_stage;
  outcome = r.outcome;
  executor_ref = r.executor_ref;
  health_reached = bool_of_int r.health_reached;
  failed_stage = r.failed_stage;
  detail = r.detail;
  error_code = r.error_code;
  exception_type = r.exception_type;
  completed_at = r.completed_at;
}

-- A record read back from its row is the record.
pub from_row-db_row : (r : OperationRecord) → from_row (db_row r) ≡ r
unfolding from_row db_row
from_row-db_row r = ground arith

unfoldable pub stage_text : Stage → String
stage_text prepare = "prepare"
stage_text restart = "restart"
stage_text health_wait = "health_wait"

unfoldable pub outcome_text : Outcome → String
outcome_text success = "ok"
outcome_text error = "error"

unfoldable pub code_text : ErrorCode → String
code_text crash_recovery = "CRASH_RECOVERY"
code_text preparation_write_failed = "preparation_write_failed"
code_text restart_timeout = "restart_timeout"
code_text restart_command_failed = "restart_command_failed"
code_text health_wait_error = "health_wait_error"
code_text health_probe_timeout = "health_probe_timeout"
code_text queue_full = "queue_full"

abbrev pub or_null {ℓ} : {A : Type ℓ} → (A → Value) → Option A → Value
or_null f none = null
or_null f (some a) = f a

unfoldable pub to_running_dict : OperationRecord → Dict Value
unfolding stage_text
to_running_dict r =
    ("operation_id", text r.operation_id)
    ∷ ("status", text "running")
    ∷ ("current_stage", or_null (λ s. text (stage_text s)) r.current_stage)
    ∷ []

unfoldable pub to_done_dict : OperationRecord → Dict Value
unfolding stage_text outcome_text code_text
to_done_dict r =
    ("operation_id", text r.operation_id)
    ∷ ("status", text "done")
    ∷ ("outcome", or_null (λ o. text (outcome_text o)) r.outcome)
    ∷ ("executor_ref", or_null text r.executor_ref)
    ∷ ("health_reached", or_null bool r.health_reached)
    ∷ ("failed_stage", or_null (λ s. text (stage_text s)) r.failed_stage)
    ∷ ("detail", or_null text r.detail)
    ∷ ("error_code", or_null (λ c. text (code_text c)) r.error_code)
    ∷ ("exception_type", or_null text r.exception_type)
    ∷ []

-- ===== src/Operation/Lifecycle.antt =====
-- operations/lifecycle.py: the record of one server operation and its transitions.
-- A method that mutates `self` returns the new record. Each reading of the clock by `_now()` is an
-- argument, in the order of the readings; a time is a number of microseconds.
pub mod Names
pub mod Dicts
pub mod Machine
pub mod Invariant
pub mod Trace
use craftcontrol.Base.{
  ℕ, Bool, true, false, Option, none, some, List, [], ◌∷◌, map, String, ◌==◌, if◌then◌else◌, find,
}
use craftcontrol.Base.Dict.{Dict, update, insert}
use craftcontrol.Base.Value.{Value, text}

pub data OperationState : Type 0 where
  pending running confirmed failed divergent : OperationState

-- `OperationState.is_terminal`
abbrev pub is_terminal : OperationState → Bool
is_terminal confirmed = true
is_terminal failed = true
is_terminal divergent = true
is_terminal _ = false

pub data OperationStage : Type 0 where
  review backup_verify prepare restart health_wait verify confirm_stage : OperationStage

abbrev pub ordered : List OperationStage
ordered = review ∷ backup_verify ∷ prepare ∷ restart ∷ health_wait ∷ verify ∷ confirm_stage ∷ []

-- `ordered().index(stage)`
abbrev pub index_of : OperationStage → ℕ
index_of review = 0
index_of backup_verify = 1
index_of prepare = 2
index_of restart = 3
index_of health_wait = 4
index_of verify = 5
index_of confirm_stage = 6

abbrev pub same_stage : OperationStage → OperationStage → Bool
same_stage a b = index_of a == index_of b

pub data StageResult : Type 0 where
  pending running completed failed skipped : StageResult

pub record StageRecord : Type 0 where
  pub stage : OperationStage
  pub result : StageResult
  pub started_at : Option ℕ
  pub completed_at : Option ℕ
  pub evidence : Dict Value
  pub error : Option String

-- `StageRecord(stage=s)`
abbrev pub fresh : OperationStage → StageRecord
fresh s = record {
  stage = s;
  result = StageResult.pending;
  started_at = none;
  completed_at = none;
  evidence = [];
  error = none;
}

pub record ServerOperation : Type 0 where
  pub operation_id : String
  pub server_id : String
  pub requested_changes : Dict Value
  pub state : OperationState
  pub stages : List StageRecord
  pub created_at : ℕ
  pub updated_at : ℕ
  pub completed_at : Option ℕ
  pub terminal_error : Option String
  pub observation : Dict Value
  pub correlation_id : Option String
  pub parent_operation_id : Option String

-- What the methods raise: `ValueError` of `_assert_state` and `KeyError` of `_stage`.
pub data Refusal : Type 0 where
  cannot_transition : OperationState → Refusal
  stage_not_found : OperationStage → Refusal

pub data Result {ℓ} (A : Type ℓ) : Type ℓ where
  err : Refusal → Result A
  ok : A → Result A

infixl 5 ◌>>=◌ ◌>>◌
-- An exception ends the method.
abbrev pub ◌>>=◌ {ℓ κ} : {X : Type ℓ} {Y : Type κ} → Result X → (X → Result Y) → Result Y
err refusal >>= next = err refusal
ok value >>= next = next value

abbrev pub ◌>>◌ {ℓ} : {Y : Type ℓ} → Result (Unit {0}) → Result Y → Result Y
check >> rest = check >>= λ done. rest

-- `create`; the new UUID and the reading of the clock are arguments
unfoldable pub create :
    String → ℕ → String → Dict Value → Option String → Option String → ServerOperation
create uuid now server changes correlation parent = record {
  operation_id = uuid;
  server_id = server;
  requested_changes = changes;
  state = OperationState.pending;
  stages = map fresh ordered;
  created_at = now;
  updated_at = now;
  completed_at = none;
  terminal_error = none;
  observation = [];
  correlation_id = correlation;
  parent_operation_id = parent;
}

abbrev same_state : OperationState → OperationState → Bool
same_state pending pending = true
same_state running running = true
same_state confirmed confirmed = true
same_state failed failed = true
same_state divergent divergent = true
same_state _ _ = false

-- `_assert_state(allowed)`; every call allows one state
abbrev assert_state : OperationState → ServerOperation → Result (Unit {0})
assert_state allowed op =
    if same_state op.state allowed then ok tt else err (cannot_transition op.state)

-- A write to the record that `_stage(stage)` returns, the first of that stage.
unfoldable pub modify_stage :
    OperationStage → (StageRecord → StageRecord) → List StageRecord → Result (List StageRecord)
modify_stage s f [] = err (stage_not_found s)
modify_stage s f (r ∷ rs) =
    let rest = modify_stage s f rs >>= λ rs'. ok (r ∷ rs') in
    if same_stage r.stage s then ok (f r ∷ rs) else rest

-- `if evidence: d.update(evidence)`; an empty dict changes nothing
abbrev pub merge : Option (Dict Value) → Dict Value → Dict Value
merge none d = d
merge (some e) d = update d e

-- The writes of the methods to their stage record.
abbrev pub set_running : Option (Dict Value) → ℕ → StageRecord → StageRecord
set_running evidence t r = record r {
  result = StageResult.running;
  started_at = some t;
  evidence = merge evidence r.evidence;
}

abbrev pub set_completed : Option (Dict Value) → ℕ → StageRecord → StageRecord
set_completed evidence t r = record r {
  result = StageResult.completed;
  completed_at = some t;
  evidence = merge evidence r.evidence;
}

abbrev pub set_failed : String → Option (Dict Value) → ℕ → StageRecord → StageRecord
set_failed message evidence t r = record r {
  result = StageResult.failed;
  completed_at = some t;
  error = some message;
  evidence = merge evidence r.evidence;
}

abbrev pub is_empty : String → Bool
is_empty String.[] = true
is_empty (String.◌∷◌ c s) = false

abbrev pub set_skipped : String → ℕ → StageRecord → StageRecord
set_skipped reason t r = record r {
  result = StageResult.skipped;
  completed_at = some t;
  evidence = if is_empty reason then r.evidence else insert "skip_reason" (text reason) r.evidence;
}

unfoldable pub start : ℕ → ServerOperation → Result ServerOperation
start now op = do
  assert_state OperationState.pending op
  ok (record op { state = OperationState.running; updated_at = now })

unfoldable pub begin_stage :
    OperationStage → Option (Dict Value) → ℕ → ℕ → ServerOperation → Result ServerOperation
begin_stage s evidence t₁ t₂ op = do
  assert_state OperationState.running op
  stages ← modify_stage s (set_running evidence t₁) op.stages
  ok (record op { stages = stages; updated_at = t₂ })

unfoldable pub complete_stage :
    OperationStage → Option (Dict Value) → ℕ → ℕ → ServerOperation → Result ServerOperation
complete_stage s evidence t₁ t₂ op = do
  assert_state OperationState.running op
  stages ← modify_stage s (set_completed evidence t₁) op.stages
  ok (record op { stages = stages; updated_at = t₂ })

-- No guard on the state: the source has none.
unfoldable pub fail_stage :
    OperationStage
    → String
    → Option (Dict Value)
    → ℕ
    → ℕ
    → ℕ
    → ServerOperation
    → Result ServerOperation
fail_stage s error evidence t₁ t₂ t₃ op = do
  stages ← modify_stage s (set_failed error evidence t₁) op.stages
  ok (record op {
    stages = stages;
    state = OperationState.failed;
    terminal_error = some error;
    completed_at = some t₂;
    updated_at = t₃;
  })

unfoldable pub skip_stage :
    OperationStage → String → ℕ → ℕ → ServerOperation → Result ServerOperation
skip_stage s reason t₁ t₂ op = do
  stages ← modify_stage s (set_skipped reason t₁) op.stages
  ok (record op { stages = stages; updated_at = t₂ })

unfoldable pub confirm : Option (Dict Value) → ℕ → ℕ → ℕ → ServerOperation → Result ServerOperation
confirm evidence t₁ t₂ t₃ op = do
  assert_state OperationState.running op
  stages ← modify_stage confirm_stage (set_completed evidence t₁) op.stages
  ok (record op {
    stages = stages;
    state = OperationState.confirmed;
    completed_at = some t₂;
    updated_at = t₃;
  })

unfoldable pub diverge :
    String
    → Option (Dict Value)
    → Option (Dict Value)
    → ℕ
    → ℕ
    → ℕ
    → ServerOperation
    → Result ServerOperation
diverge error observation evidence t₁ t₂ t₃ op = do
  assert_state OperationState.running op
  stages ← modify_stage verify (set_completed evidence t₁) op.stages
  ok (record op {
    stages = stages;
    state = OperationState.divergent;
    terminal_error = some error;
    observation = merge observation op.observation;
    completed_at = some t₂;
    updated_at = t₃;
  })

unfoldable pub update_observation : Dict Value → ℕ → ServerOperation → ServerOperation
update_observation observation now op = record op {
  observation = update op.observation observation;
  updated_at = now;
}

abbrev pub is_running : StageResult → Bool
is_running running = true
is_running _ = false

abbrev is_failed : StageResult → Bool
is_failed failed = true
is_failed _ = false

-- the property `active_stage`
unfoldable pub active_stage : ServerOperation → Option StageRecord
active_stage op = find (λ r. is_running r.result) op.stages

-- the property `failed_stage`
unfoldable pub failed_stage : ServerOperation → Option StageRecord
failed_stage op = find (λ r. is_failed r.result) op.stages

-- ===== src/Operation/Scenarios.antt =====
-- Scenarios of an operation, at concrete inputs.
use craftcontrol.Base.{◌⊎◌, ◌≡◌, refl, none, some, List, [], ◌∷◌, false}
use craftcontrol.Base.Value.{int, text}
use craftcontrol.Base.Int.{pos}
use craftcontrol.Operation.Lifecycle.{
  ServerOperation, start, skip_stage, begin_stage, fail_stage, modify_stage, OperationState, create,
  prepare, review, cannot_transition, err,
}
use craftcontrol.Operation.Lifecycle.Machine.{
  Call, call, after, run_calls, Edge, Outside, call-Edge, to_start, to_begin, to_fail, to_skip,
  to_confirm,
}
use craftcontrol.Operation.Lifecycle.Invariant.{
  IsWellFormed, create-IsWellFormed, accepted, call-accepted_iff, call-IsWellFormed,
}
use craftcontrol.Operation.Lifecycle.Trace.{identity, run_calls-IsWellFormed}

abbrev new_operation : ServerOperation
new_operation = create "op-1" 10 "bedrock" (("max_players", int (pos 20)) ∷ []) none none

abbrev new-IsWellFormed : IsWellFormed new_operation
new-IsWellFormed =
    create-IsWellFormed "op-1" 10 "bedrock" (("max_players", int (pos 20)) ∷ []) none none

-- A review, a preparation that fails after a start.
abbrev failing : List Call
failing =
    to_start 11
    ∷ to_skip review "reviewed before" 12 13
    ∷ to_begin prepare none 14 15
    ∷ to_fail prepare "disk full" (some (("path", text "server.properties") ∷ [])) 16 17 18
    ∷ []

abbrev failed_operation : ServerOperation
failed_operation = run_calls new_operation failing

call-Edge_example :
    let s = (after new_operation (call (to_start 11) new_operation)).state in
    Edge OperationState.pending s ⊎ Outside (to_start 11) OperationState.pending s
unfolding create
call-Edge_example = call-Edge (to_start 11) new_operation

call-accepted_iff_example :
    (accepted (call (to_confirm none 11 12 13) new_operation) ≡ false)
    × (false ≡ false
        → call (to_confirm none 11 12 13) new_operation
          ≡ err (cannot_transition OperationState.pending))
unfolding create
call-accepted_iff_example =
    call-accepted_iff (to_confirm none 11 12 13) new_operation new-IsWellFormed

call-IsWellFormed_example :
    IsWellFormed
      (after new_operation (call (to_fail prepare "disk full" none 16 17 18) new_operation))
call-IsWellFormed_example =
    call-IsWellFormed (to_fail prepare "disk full" none 16 17 18) new_operation new-IsWellFormed

run_calls-IsWellFormed_example :
    IsWellFormed failed_operation × (identity failed_operation ≡ identity new_operation)
run_calls-IsWellFormed_example =
    run_calls-IsWellFormed failing "op-1" 10 "bedrock" (("max_players", int (pos 20)) ∷ []) none
      none

failed_operation_ended : failed_operation.state ≡ OperationState.failed
unfolding run_calls call create start skip_stage begin_stage fail_stage modify_stage
failed_operation_ended = refl

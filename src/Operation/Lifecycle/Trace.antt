-- ===== src/Operation/Lifecycle/Trace.antt =====
-- operations/lifecycle.py: what holds of an operation after any history of method calls.
use craftcontrol.Base.{ℕ, ◌≡◌, refl, Bool, true, false, Option, List, [], ◌∷◌, String, arith, ◌∙◌}
use craftcontrol.Base.Dict.{Dict}
use craftcontrol.Base.Value.{Value}
use craftcontrol.Operation.Lifecycle.{
  ServerOperation, start, begin_stage, complete_stage, fail_stage, skip_stage, confirm, diverge,
  update_observation, is_terminal, create,
}
use craftcontrol.Operation.Lifecycle.Machine.{Call, call, after, run_calls, to_fail}
use craftcontrol.Operation.Lifecycle.Invariant.{
  IsWellFormed, create-IsWellFormed, call-IsWellFormed,
}

run_calls-IsWellFormed_from :
    (cs : List Call) (op : ServerOperation) → IsWellFormed op → IsWellFormed (run_calls op cs)
unfolding run_calls
run_calls-IsWellFormed_from [] op w = w
run_calls-IsWellFormed_from (c ∷ cs) op w =
    run_calls-IsWellFormed_from cs (after op (call c op)) (call-IsWellFormed c op w)

-- The fields that identify an operation and its origin, and what was asked of it.
abbrev pub identity :
    ServerOperation → String × String × Dict Value × ℕ × Option String × Option String
identity op = (
  op.operation_id, op.server_id, op.requested_changes, op.created_at, op.correlation_id,
  op.parent_operation_id,
)

pub identity-call :
    (c : Call) (op : ServerOperation) → identity (after op (call c op)) ≡ identity op
unfolding call start begin_stage complete_stage fail_stage skip_stage confirm diverge
    update_observation
identity-call (to_fail s x e t u v) op = ground arith
identity-call _ op = ground arith

identity-run_calls :
    (cs : List Call) (op : ServerOperation) → identity (run_calls op cs) ≡ identity op
unfolding run_calls
identity-run_calls [] op = refl
identity-run_calls (c ∷ cs) op = identity-run_calls cs (after op (call c op)) ∙ identity-call c op

-- Whatever methods are called on a new operation, and in whatever order, it stays well-formed (its
-- stages in their order, a completion time exactly in a terminal state, a terminal error exactly
-- in a failure state), and its identity, its request and its origin are those it was created with.
pub run_calls-IsWellFormed :
    (cs : List Call) (uuid : String) (now : ℕ) (server : String) (changes : Dict Value)
    (correlation parent : Option String)
    → let op = create uuid now server changes correlation parent in
      IsWellFormed (run_calls op cs) × (identity (run_calls op cs) ≡ identity op)
run_calls-IsWellFormed cs uuid now server changes correlation parent = (
  run_calls-IsWellFormed_from cs _ (create-IsWellFormed uuid now server changes correlation parent),
  identity-run_calls cs _,
)

abbrev is_fail : Call → Bool
is_fail (to_fail _ _ _ _ _ _) = true
is_fail _ = false

abbrev NoFailure : List Call → Type 0
NoFailure [] = Unit
NoFailure (c ∷ cs) = (is_fail c ≡ false) × NoFailure cs

call_terminal :
    (c : Call) (op : ServerOperation)
    → is_terminal op.state ≡ true
    → is_fail c ≡ false
    → (after op (call c op)).state ≡ op.state
unfolding call start begin_stage complete_stage fail_stage skip_stage confirm diverge
    update_observation
call_terminal (to_fail s x e t u v) op h n = cc
call_terminal _ op h n = ground arith

-- A terminal state is final but for `fail_stage`, which the source leaves unguarded: any history
-- of the other calls leaves the state as it is.
pub run_calls_terminal :
    (cs : List Call) (op : ServerOperation)
    → is_terminal op.state ≡ true
    → NoFailure cs
    → (run_calls op cs).state ≡ op.state
unfolding run_calls
run_calls_terminal [] op h n = refl
run_calls_terminal (c ∷ cs) op h n =
    let e = call_terminal c op h n.0 in
    run_calls_terminal cs (after op (call c op)) (rw e h) n.1 ∙ e

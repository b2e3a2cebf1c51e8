-- ===== src/Operation/Lifecycle/Machine.antt =====
-- operations/lifecycle.py: a method call as data, so that a history is a list of calls.
use craftcontrol.Base.{true, ℕ, ◌≡◌, refl, Option, List, [], ◌∷◌, String, arith, ◌⊎◌, inl, inr}
use craftcontrol.Base.Dict.{Dict}
use craftcontrol.Base.Value.{Value}
use craftcontrol.Operation.Lifecycle.{
  OperationState, OperationStage, ServerOperation, Refusal, Result, ok, err, start, begin_stage,
  complete_stage, fail_stage, skip_stage, confirm, diverge, update_observation, is_terminal,
  modify_stage, set_failed,
}

-- A call of a public mutating method of `ServerOperation`, with its clock readings.
pub data Call : Type 0 where
  to_start : ℕ → Call
  to_begin to_complete : OperationStage → Option (Dict Value) → ℕ → ℕ → Call
  to_fail : OperationStage → String → Option (Dict Value) → ℕ → ℕ → ℕ → Call
  to_skip : OperationStage → String → ℕ → ℕ → Call
  to_confirm : Option (Dict Value) → ℕ → ℕ → ℕ → Call
  to_diverge : String → Option (Dict Value) → Option (Dict Value) → ℕ → ℕ → ℕ → Call
  to_observe : Dict Value → ℕ → Call

unfoldable pub call : Call → ServerOperation → Result ServerOperation
call (to_start t) op = start t op
call (to_begin s e t u) op = begin_stage s e t u op
call (to_complete s e t u) op = complete_stage s e t u op
call (to_fail s x e t u v) op = fail_stage s x e t u v op
call (to_skip s r t u) op = skip_stage s r t u op
call (to_confirm e t u v) op = confirm e t u v op
call (to_diverge x o e t u v) op = diverge x o e t u v op
call (to_observe o t) op = ok (update_observation o t op)

-- The object after a call: a call that raises leaves it as it was.
abbrev pub after : ServerOperation → Result ServerOperation → ServerOperation
after op (ok op') = op'
after op (err e) = op

unfoldable pub run_calls : ServerOperation → List Call → ServerOperation
run_calls op [] = op
run_calls op (c ∷ cs) = run_calls (after op (call c op)) cs

-- The diagram of docs/operation-lifecycle.md, less the cancellation, which the code does not have:
-- PENDING, IN_PROGRESS, APPLIED, FAILED and DIVERGENT are `pending`, `running`, `confirmed`, `failed`
-- and `divergent`.
pub data Edge : OperationState → OperationState → Type 0 where
  stay : {s : OperationState} → Edge s s
  begin : Edge OperationState.pending OperationState.running
  succeed : Edge OperationState.running OperationState.confirmed
  differ : Edge OperationState.running OperationState.divergent
  fail : Edge OperationState.running OperationState.failed

-- The moves that the diagram does not have.
pub data Outside : Call → OperationState → OperationState → Type 0 where
  unstarted :
      {s : OperationStage} {x : String} {e : Option (Dict Value)} {t u v : ℕ}
      → Outside (to_fail s x e t u v) OperationState.pending OperationState.failed
  reopened :
      {s : OperationStage} {x : String} {e : Option (Dict Value)} {t u v : ℕ} {old : OperationState}
      → is_terminal old ≡ true
      → Outside (to_fail s x e t u v) old OperationState.failed

ruleset edges = (stay, begin, succeed, differ, fail)

fail-Edge :
    (s : OperationStage) (x : String) (e : Option (Dict Value)) (t u v : ℕ) (old : OperationState)
    → Edge old OperationState.failed ⊎ Outside (to_fail s x e t u v) old OperationState.failed
fail-Edge s x e t u v OperationState.pending = inr unstarted
fail-Edge s x e t u v OperationState.running = inl fail
fail-Edge s x e t u v OperationState.confirmed = inr (reopened refl)
fail-Edge s x e t u v OperationState.failed = inl stay
fail-Edge s x e t u v OperationState.divergent = inr (reopened refl)

-- The possible values of a write, kept as an equation.
pub Result-cases {ℓ} :
    {A : Type ℓ} (r : Result A) → ((e : Refusal) × (r ≡ err e)) ⊎ ((a : A) × (r ≡ ok a))
Result-cases (ok a) = inr (a, refl)
Result-cases (err e) = inl (e, refl)

-- Every call of a method, accepted or refused, moves the state along an edge of the diagram of
-- docs/operation-lifecycle.md or not at all, with one exception that the diagram does not have: a call
-- of `fail_stage` also takes an operation that is pending or in a terminal state to `failed`.
pub call-Edge :
    (c : Call) (op : ServerOperation)
    → let s = (after op (call c op)).state in Edge op.state s ⊎ Outside c op.state s
unfolding call start begin_stage complete_stage fail_stage skip_stage confirm diverge
    update_observation
call-Edge (to_start t) op = inl (grind (arith, edges))
call-Edge (to_fail s x e t u v) op =
    elim (Result-cases (modify_stage s (set_failed x e t) op.stages)) [
      | inl (r, p) ↦ inl (rw p stay)
      | inr (stages, p) ↦ rw p (fail-Edge s x e t u v op.state)
    ]
call-Edge _ op = inl (grind (arith, edges))

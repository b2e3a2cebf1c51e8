-- ===== src/Operation/Worker/Stages/Steps.antt =====
-- operations/service.py: what `_begin`, `_complete` and `_fail`, with the reconciliation of a failed
-- operation, leave of the operation.
use craftcontrol.Base.{
  ℕ, ◌≡◌, refl, sym, Bool, true, false, Option, none, String, arith, inl, inr, Bool-cases,
}
use mathlib.Core.Path.{subst}
use craftcontrol.Base.Dict.{Dict}
use craftcontrol.Base.Value.{Value}
use craftcontrol.Operation.Lifecycle.{
  ServerOperation, OperationStage, review, fail_stage, ok, modify_stage, set_failed,
  update_observation,
}
use craftcontrol.Operation.Lifecycle.Machine.{call, Result-cases, to_begin, to_complete, to_fail}
use craftcontrol.Operation.Lifecycle.Invariant.{IsWellFormed, is_failure}
use craftcontrol.Operation.Worker.State.{
  Environment, Reply-cases, World, Outcome, done, raised, returned, change, leave, publish,
  audit_terminal, perform, now, note, save,
}
use craftcontrol.Operation.Worker.Observe.{
  verify_configuration, reconcile_online, reconcile_failed_operation, reconcile_unless_review,
  observe_container, after_observation, is_online, begin_step, complete_step, fail_step,
}
use craftcontrol.Operation.Worker.Stages.{fail_out}
use craftcontrol.Operation.Worker.Stages.Post.{
  Active, Triple, Post, IsFinal, sequence, advance-Active, save-IsFinal, call-demanded,
}

-- A well-formed operation in a failure state.
abbrev pub IsFailed : ServerOperation → Type 0
IsFailed op = IsWellFormed op × (is_failure op.state ≡ true)

pub call_fail :
    (s : OperationStage) (error : String) (evidence : Option (Dict Value)) (t : ℕ)
    (op : ServerOperation) {op' : ServerOperation}
    → call (to_fail s error evidence t t t) op ≡ ok op'
    → is_failure op'.state ≡ true
unfolding call fail_stage
call_fail s error evidence t op p =
    elim (Result-cases (modify_stage s (set_failed error evidence t) op.stages)) [
      | inl (e, q) ↦ ground (arith, p, q)
      | inr (stages, q) ↦ ground (arith, p, q)
    ]

module _ (env : Environment) where
  observed-IsFailed :
      (w : World)
      → IsFailed w.operation
      → IsFailed (note env (observe_container env w) (after_observation env w)).operation
  unfolding update_observation
  observed-IsFailed w h = ground (arith, h)

  pub operation-verify_configuration :
      (w : World) → (verify_configuration env w).1.operation ≡ w.operation
  unfolding verify_configuration
  operation-verify_configuration w = elim (Reply-cases (env.read_properties w.reads)) [
    | inl (properties, p) ↦ rw p refl
    | inr (e, p) ↦ rw p refl
  ]

  reconcile_online-IsFailed :
      (o : Outcome (Bool × Dict Value)) (w : World)
      → IsFailed w.operation
      → IsFailed (reconcile_online env o w).operation
  unfolding update_observation
  reconcile_online-IsFailed returned w h = h
  reconcile_online-IsFailed (raised e) w h = ground (arith, h)
  reconcile_online-IsFailed (done (true, evidence)) w h = ground (arith, h)
  reconcile_online-IsFailed (done (false, evidence)) w h = ground (arith, h)

  pub reconcile_failed_operation-IsFailed :
      (w : World) → IsFailed w.operation → IsFailed (reconcile_failed_operation env w).operation
  unfolding reconcile_failed_operation
  reconcile_failed_operation-IsFailed w h =
      elim (Bool-cases (is_online (observe_container env w))) [
        | inl up ↦
            let w' = note env (observe_container env w) (after_observation env w) in
            rw up (
              reconcile_online-IsFailed (verify_configuration env w').0
                (verify_configuration env w').1
                (subst IsFailed (sym (operation-verify_configuration w')) (observed-IsFailed w h)))
        | inr down ↦ rw down ground (arith, observed-IsFailed w h)
      ]

  pub reconcile_unless_review-IsFailed :
      (s : OperationStage) (w : World)
      → IsFailed w.operation
      → IsFailed (reconcile_unless_review env s w).operation
  reconcile_unless_review-IsFailed review w h = h
  reconcile_unless_review-IsFailed _ w h = reconcile_failed_operation-IsFailed w h

  failure-IsFinal :
      (w : World) → IsFailed w.operation → Post env (λ _. IsFinal env) (save env w).0 (save env w).1
  failure-IsFinal w (good, failure) =
      save-IsFinal env w good (ground (arith, failure)) (λ h. ground (arith, h, failure))

  -- `_fail` of any well-formed operation, whether or not the stage is there to reconcile.
  pub fail_step-IsFinal :
      (s : OperationStage) (error : String) (evidence : Option (Dict Value))
      → Triple env
          (λ w. IsWellFormed w.operation)
          (fail_step env s error evidence)
          (λ _. IsFinal env)
  unfolding fail_step perform
  fail_step-IsFinal s error evidence w good =
      let t = now env w in
      let (op, p, good', same) =
        call-demanded (to_fail s error evidence t t t) w.operation good refl in
      let failed : is_failure op.state ≡ true = call_fail s error evidence t w.operation p in
      rw p (
        sequence env {P = λ w'. IsFailed w'.operation} (λ _. IsFinal env) (λ _. IsFinal env)
          (save env) (λ _. change (λ w'. audit_terminal "operation.failed" (publish w')))
          failure-IsFinal (λ _ w' h. h) _
          (reconcile_unless_review-IsFailed s (record w { operation = op }) (good', failed)))

  pub fail_out-Post :
      (Q : Unit {0} → World → Type 0) (s : OperationStage) (error : String)
      (evidence : Option (Dict Value))
      → Triple env (λ w. IsWellFormed w.operation) (fail_out env s error evidence) Q
  unfolding fail_out
  fail_out-Post Q s error evidence =
      sequence env (λ _. IsFinal env) Q (fail_step env s error evidence) (λ _. leave)
        (fail_step-IsFinal s error evidence) (λ _ w h. h)

  module _ {R : Dict Value → Type 0} where
    pub begin_step-Active :
        (s : OperationStage) → Triple env (Active R) (begin_step env s) (λ _. Active R)
    unfolding begin_step
    begin_step-Active s = advance-Active env (λ t. to_begin s none t t) s (λ t. refl)

    pub complete_step-Active :
        (s : OperationStage) (evidence : Option (Dict Value))
        → Triple env (Active R) (complete_step env s evidence) (λ _. Active R)
    unfolding complete_step
    complete_step-Active s evidence =
        advance-Active env (λ t. to_complete s evidence t t) s (λ t. refl)

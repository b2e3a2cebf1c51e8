-- ===== src/Operation/Worker/Stages/Verdict.antt =====
-- operations/service.py: what a worker thread leaves when it ends.
use craftcontrol.Base.{ℕ, ◌≡◌, refl, true, none, String, arith, inl, inr, Bool-cases}
use craftcontrol.Base.Dict.{lookup-insert_self}
use craftcontrol.Operation.Lifecycle.{
  ServerOperation, OperationState, OperationStage, ok, is_terminal, start,
}
use craftcontrol.Operation.Lifecycle.Machine.{call, to_start, to_fail}
use craftcontrol.Operation.Lifecycle.Invariant.{IsWellFormed}
use craftcontrol.Operation.Service
use craftcontrol.Operation.Worker.State.{
  Run, ◌>>◌, Environment, Reply-cases, World, Outcome, done, raised, returned, now, perform, save,
}
use craftcontrol.Operation.Worker.Stages.{
  carry_out, fail_internal, recover, run, enroll, review_stage, skip_backup, prepare_stage,
  restart_stage, health_stage, verify_stage,
}
use craftcontrol.Operation.Worker.Stages.Post.{
  IsReviewed, Active, Triple, Post, IsFinal, IsVerified, IsStored, AreWritten, sequence,
  save-Active, call-demanded,
}
use craftcontrol.Operation.Worker.Stages.Steps.{call_fail}
use craftcontrol.Operation.Worker.Stages.Review.{Any, review_stage-Active}
use craftcontrol.Operation.Worker.Stages.Later.{
  skip_backup-Active, prepare_stage-Active, restart_stage-Active, health_stage-Active,
}
use craftcontrol.Operation.Worker.Stages.Verify.{verify_stage-Active, confirm_step-IsFinal}

-- A new operation, before its thread.
pub record IsPending (op : ServerOperation) : Type 0 where
  pub well_formed : IsWellFormed op
  pub pending : op.state ≡ OperationState.pending

call_start :
    (t : ℕ) (op op' : ServerOperation)
    → call (to_start t) op ≡ ok op'
    → op'.state ≡ OperationState.running
unfolding call start
call_start t op op' p = ground (arith, p)

module _ (env : Environment) where
  start-Active : Triple env (λ w. IsPending w.operation) (perform env to_start) (λ _. Active Any)
  unfolding perform
  start-Active w pending =
      let t = now env w in
      let (op, p, good, same) =
        call-demanded (to_start t) w.operation pending.well_formed (rw pending.pending refl) in
      rw p record { well_formed = good; running = call_start t w.operation op p; changes = tt }

  -- A stage, and what leads from it to the end.
  onward :
      {P : World → Type 0} (Q : World → Type 0) (m rest : Run (Unit {0}))
      → Triple env P m (λ _. Q)
      → Triple env Q rest (λ _. IsFinal env)
      → Triple env P (m >> rest) (λ _. IsFinal env)
  onward Q m rest h k = sequence env (λ _. Q) (λ _. IsFinal env) m (λ _. rest) h (λ _. k)

  carry_out-IsFinal : Triple env (λ w. IsPending w.operation) (carry_out env) (λ _. IsFinal env)
  unfolding carry_out
  carry_out-IsFinal =
      let reviewed = Active IsReviewed in
      let verified =
        onward (Active (IsVerified env)) (verify_stage env) _ (verify_stage-Active env)
          (confirm_step-IsFinal env) in
      let healthy = onward reviewed (health_stage env) _ (health_stage-Active env) verified in
      let restarted = onward reviewed (restart_stage env) _ (restart_stage-Active env) healthy in
      let prepared = onward reviewed (prepare_stage env) _ (prepare_stage-Active env) restarted in
      let skipped = onward reviewed (skip_backup env) _ (skip_backup-Active env) prepared in
      let saved = onward reviewed (review_stage env) _ (review_stage-Active env) skipped in
      let started = onward (Active Any) (save env) _ (save-Active env) saved in
      onward (Active Any) (perform env to_start) _ start-Active started

  -- The failure that the `except` records, whether or not its write reaches SQLite.
  fail_internal-IsFinal :
      (s : OperationStage) (error : String) (w : World)
      → IsWellFormed w.operation
      → IsFinal env (fail_internal env s error w).1
  unfolding perform save Service.save
  fail_internal-IsFinal s error w good =
      let t = now env w in
      let (op, p, good', same) = call-demanded (to_fail s error none t t t) w.operation good refl in
      let failed = call_fail s error none t w.operation p in
      elim (Reply-cases (env.write w.writes)) [
        | inl (u, q) ↦
            rw (p, q)
              (
                record {
                  well_formed = good';
                  verified = λ h. ground (arith, h, failed);
                  stored = λ h h'. lookup-insert_self op.operation_id op w.table;
                },
                ground (arith, failed),
              )
        | inr (e, q) ↦
            rw (p, q)
              (
                record {
                  well_formed = good';
                  verified = λ h. ground (arith, h, failed);
                  stored = λ h written. ground (arith, q, written w.writes);
                },
                ground (arith, failed),
              )
      ]

  recover-IsFinal :
      (o : Outcome (Unit {0})) (w : World)
      → Post env (λ _. IsFinal env) o w
      → IsFinal env (recover env (o, w)).1
  recover-IsFinal (done _) w h = h
  recover-IsFinal returned w h = h
  recover-IsFinal (raised e) w h = elim (Bool-cases (is_terminal w.operation.state)) [
    | inl end ↦ rw end (h, end)
    | inr active ↦ rw active (fail_internal-IsFinal _ _ w h.well_formed)
  ]

  run-IsFinal : (w : World) → IsPending w.operation → IsFinal env (run env w).1
  unfolding run
  run-IsFinal w pending =
      let w' = record w { live_workers = enroll w.operation.operation_id w.live_workers } in
      recover-IsFinal (carry_out env w').0 (carry_out env w').1 (carry_out-IsFinal w' pending)

  -- The thread of a well-formed operation that is pending ends, whatever its ports, its clock and
  -- the writes to SQLite do, with the operation well-formed and in a terminal state.
  pub run-IsWellFormed :
      (w : World)
      → IsPending w.operation
      → IsWellFormed (run env w).1.operation × (is_terminal (run env w).1.operation.state ≡ true)
  run-IsWellFormed w pending = let (sound, end) = run-IsFinal w pending in (sound.well_formed, end)

  -- If the thread of a well-formed operation that is pending confirms it, one of its reads of
  -- server.properties found every requested change as the text under the property of its key, and
  -- one of its observations found the server online.
  pub run-IsVerified :
      (w : World)
      → IsPending w.operation
      → (run env w).1.operation.state ≡ OperationState.confirmed
      → IsVerified env (run env w).1.operation.requested_changes
  run-IsVerified w pending confirmed = (run-IsFinal w pending).0.verified confirmed

  -- If every write reaches SQLite, the row that the thread of a well-formed operation that is
  -- pending leaves in the table is the operation that it ends with.
  pub run-IsStored :
      (w : World)
      → AreWritten env
      → IsPending w.operation
      → IsStored env (run env w).1.operation (run env w).1.table
  run-IsStored w written pending =
      let (sound, end) = run-IsFinal w pending in sound.stored end written

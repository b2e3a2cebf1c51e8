-- ===== src/Operation/Worker/Stages/Later.antt =====
-- operations/service.py: the stages after REVIEW.
use craftcontrol.Base.{
  ℕ, ◌+◌, suc, zero, ◌≡◌, refl, sym, ap, ◌∙◌, Bool, true, false, Option, none, some, List, [], ◌∷◌,
  map, String, arith, inl, inr, Bool-cases, ltb,
}
use mathlib.Core.Path.{subst}
use craftcontrol.Base.Dict.{Dict}
use craftcontrol.Base.Value.{Value}
use craftcontrol.Operation.Lifecycle.{
  ServerOperation, OperationState, StageRecord, ok, is_terminal, prepare, restart, health_wait,
  backup_verify, update_observation,
}
use craftcontrol.Operation.Lifecycle.Machine.{Call, call, to_skip}
use craftcontrol.Operation.Lifecycle.Invariant.{demanded}
use craftcontrol.Operation.Worker.State.{
  ◌>>=◌, ◌>>◌, Environment, answer, broken, Reply, World, Outcome, done, raised, returned, Effect,
  change, publish, audit_terminal, perform, now, note, save, save_stage, ◌>>=◌, ◌>>◌,
}
use craftcontrol.Operation.Worker.Observe.{
  observe_container, after_observation, is_online, begin_step,
}
use craftcontrol.Operation.Worker.Health.{
  health_evidence, deadline_of, update_active, heartbeat, record_health_observation, health_round,
  health_loop, Round, finished, again, Round-cases, after_record, wait_for_health,
  wait_for_health-health_loop,
}
use craftcontrol.Operation.Worker.Stages.{
  finish, record_effect, skip_backup, settle_apply, prepare_stage, settle_execute, restart_stage,
  settle_health, health_stage,
}
use craftcontrol.Operation.Worker.Stages.Post.{
  Active, Triple, Post, IsFinal, IsVerified, IsReviewed, sequence, advance-Active,
  save_stage-Active, save-IsFinal, call-demanded,
}
use craftcontrol.Operation.Worker.Stages.Steps.{
  fail_out-Post, begin_step-Active, complete_step-Active,
}

map-update_active :
    (d : Dict Value) (rs : List StageRecord)
    → map (λ r. r.stage) (update_active d rs) ≡ map (λ r. r.stage) rs
unfolding update_active
map-update_active d [] = refl
map-update_active d (r ∷ rs) = ground (arith, map-update_active d rs)

module _ (env : Environment) where
  pub note-Active :
      {R : Dict Value → Type 0} (d : Dict Value) (w : World) → Active R w → Active R (note env d w)
  unfolding update_observation
  note-Active d w a = record {
    well_formed = ground (arith, a.well_formed);
    running = a.running;
    changes = a.changes;
  }

  heartbeat-Active :
      (d : Dict Value) (w : World) → Active IsReviewed w → Active IsReviewed (heartbeat d w)
  heartbeat-Active d w a = record {
    well_formed = record {
      stage_order = map-update_active d w.operation.stages ∙ a.well_formed.stage_order;
      sealed = a.well_formed.sealed;
      explained = a.well_formed.explained;
    };
    running = a.running;
    changes = a.changes;
  }

  record_health_observation-Active :
      (d : Dict Value) (count : ℕ)
      → Triple env
          (Active IsReviewed)
          (record_health_observation env d count)
          (λ _. Active IsReviewed)
  unfolding record_health_observation
  record_health_observation-Active d count w a =
      sequence env (λ _. Active IsReviewed) (λ _. Active IsReviewed) (save_stage env health_wait)
        (λ _. change publish) (save_stage-Active env health_wait) (λ _ w' h. h)
        (heartbeat (health_evidence count d) (note env d w))
        (heartbeat-Active (health_evidence count d) (note env d w) (note-Active d w a))

  -- A round that ends the loop, or goes on.
  abbrev PostRound : Round → Type 0
  PostRound (finished (o, w)) = Post env (λ _. Active IsReviewed) o w
  PostRound (again count last w) = Active IsReviewed w

  after_record-PostRound :
      (deadline count : ℕ) (d : Dict Value) (o : Outcome (Unit {0})) (w : World)
      → Post env (λ _. Active IsReviewed) o w
      → PostRound (after_record env deadline count d (o, w))
  after_record-PostRound deadline count d (raised e) w h = h
  after_record-PostRound deadline count d returned w h = h
  after_record-PostRound deadline count d (done _) w h = elim (Bool-cases (is_online d)) [
    | inl up ↦ rw up h
    | inr down ↦
        rw down (elim (Bool-cases (ltb w.time deadline)) [
          | inl early ↦ rw early h
          | inr late ↦ rw late h
        ])
  ]

  health_round-PostRound :
      (deadline count : ℕ) (last : Dict Value) (w : World)
      → Active IsReviewed w
      → PostRound (health_round env deadline count last w)
  unfolding health_round
  health_round-PostRound deadline count last w a = elim (Bool-cases (ltb w.time deadline)) [
    | inl early ↦
        let d = observe_container env w in
        let r = record_health_observation env d (count + 1) (after_observation env w) in
        rw early (
          after_record-PostRound deadline (count + 1) d r.0 r.1
            (record_health_observation-Active d (count + 1) (after_observation env w) a))
    | inr late ↦ rw late a
  ]

  abbrev PostLoop : Option (Outcome (Bool × Dict Value) × World) → Type 0
  PostLoop none = Unit
  PostLoop (some (o, w)) = Post env (λ _. Active IsReviewed) o w

  health_loop-PostLoop :
      (fuel deadline count : ℕ) (last : Dict Value) (w : World)
      → Active IsReviewed w
      → PostLoop (health_loop env fuel deadline count last w)
  unfolding health_loop
  health_loop-PostLoop zero deadline count last w a = tt
  health_loop-PostLoop (suc n) deadline count last w a =
      let step = health_round-PostRound deadline count last w a in
      elim (Round-cases (health_round env deadline count last w)) [
        | inl (o, p) ↦ rw (p, PostLoop) (subst (λ x. PostRound x) p step)
        | inr (count', last', w', p) ↦
            rw (p, PostLoop)
              (health_loop-PostLoop n deadline count' last' w' (subst (λ x. PostRound x) p step))
      ]

  wait_for_health-Active :
      Triple env (Active IsReviewed) (wait_for_health env) (λ _. Active IsReviewed)
  wait_for_health-Active w a =
      subst PostLoop (wait_for_health-health_loop env w)
        (health_loop-PostLoop (suc env.health_timeout) (deadline_of env w) 0 [] w a)

  pub skip_backup-Active : Triple env (Active IsReviewed) (skip_backup env) (λ _. Active IsReviewed)
  unfolding skip_backup
  skip_backup-Active =
      advance-Active env (λ t. to_skip backup_verify "no_backup_required" t t) backup_verify
        (λ t. refl)

  settle_apply-Active :
      (r : Reply (Unit {0}))
      → Triple env (Active IsReviewed) (settle_apply env r) (λ _. Active IsReviewed)
  settle_apply-Active (answer _) w a = complete_step-Active env prepare none w a
  settle_apply-Active (broken e) w a =
      fail_out-Post env (λ _. Active IsReviewed) prepare e none w a.well_formed

  pub prepare_stage-Active :
      Triple env (Active IsReviewed) (prepare_stage env) (λ _. Active IsReviewed)
  unfolding prepare_stage
  prepare_stage-Active =
      sequence env (λ _. Active IsReviewed) (λ _. Active IsReviewed) (begin_step env prepare)
        (λ _. change (record_effect Effect.applied) >> settle_apply env env.apply_fn)
        (begin_step-Active env prepare)
        (λ _ w a. settle_apply-Active env.apply_fn (record_effect Effect.applied w) a)

  settle_execute-Active :
      (r : Reply (Unit {0}))
      → Triple env (Active IsReviewed) (settle_execute env r) (λ _. Active IsReviewed)
  settle_execute-Active (answer _) w a = complete_step-Active env restart none w a
  settle_execute-Active (broken e) w a =
      let d = observe_container env w in
      let w' = note env d (after_observation env w) in
      let a' = note-Active d (after_observation env w) a in
      fail_out-Post env (λ _. Active IsReviewed) restart e (some d) w' a'.well_formed

  pub restart_stage-Active :
      Triple env (Active IsReviewed) (restart_stage env) (λ _. Active IsReviewed)
  unfolding restart_stage
  restart_stage-Active =
      sequence env (λ _. Active IsReviewed) (λ _. Active IsReviewed) (begin_step env restart)
        (λ _.
          change (λ w. record_effect (Effect.executed w.operation.requested_changes) w)
          >> settle_execute env env.execute)
        (begin_step-Active env restart)
        (λ _ w a.
          settle_execute-Active env.execute
            (record_effect (Effect.executed w.operation.requested_changes) w) a)

  settle_health-Active :
      (found : Bool × Dict Value)
      → Triple env (Active IsReviewed) (settle_health env found) (λ _. Active IsReviewed)
  settle_health-Active (true, evidence) w a =
      complete_step-Active env health_wait (some evidence) w a
  settle_health-Active (false, evidence) w a =
      fail_out-Post env (λ _. Active IsReviewed) health_wait _ (some evidence) w a.well_formed

  pub health_stage-Active :
      Triple env (Active IsReviewed) (health_stage env) (λ _. Active IsReviewed)
  unfolding health_stage
  health_stage-Active =
      sequence env (λ _. Active IsReviewed) (λ _. Active IsReviewed) (begin_step env health_wait)
        (λ _. wait_for_health env >>= settle_health env) (begin_step-Active env health_wait)
        (λ _.
          sequence env (λ _. Active IsReviewed) (λ _. Active IsReviewed) (wait_for_health env)
            (settle_health env) wait_for_health-Active settle_health-Active)

  -- The end of an operation in a state of which its changes are worthy.
  pub finish-IsFinal :
      {R : Dict Value → Type 0} (c : ℕ → Call) (action : String)
      → ((t : ℕ) → demanded (c t) OperationState.running ≡ true)
      → ((t : ℕ) (op op' : ServerOperation)
          → call (c t) op ≡ ok op'
          → R op.requested_changes
          → (is_terminal op'.state ≡ true)
            × (op'.state ≡ OperationState.confirmed → IsVerified env op.requested_changes))
      → Triple env (Active R) (finish env c action) (λ _. IsFinal env)
  unfolding finish perform
  finish-IsFinal c action accepted worthy w a =
      let t = c (now env w) in
      let (op, p, good, same) =
        call-demanded t w.operation a.well_formed (rw a.running (accepted (now env w))) in
      let (end, verified) = worthy (now env w) w.operation op p a.changes in
      rw p (
        sequence env {P = λ w'. w'.operation ≡ op} (λ _. IsFinal env) (λ _. IsFinal env) (save env)
          (λ _. change (λ w'. audit_terminal action (publish w')))
          (λ w' e. save-IsFinal env w' (rw e good) (rw e end) (λ h.
            subst (IsVerified env)
              (sym (ap (λ x. x.2) same) ∙ ap (λ x. x.requested_changes) (sym e))
              (verified (rw e at h))))
          (λ _ w' h. h) (record w { operation = op }) refl)

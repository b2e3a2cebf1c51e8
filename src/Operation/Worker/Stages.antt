-- ===== src/Operation/Worker/Stages.antt =====
-- operations/service.py: the stages of `_run`, in the order in which the thread carries them out.
pub mod Post
pub mod Steps
pub mod Review
pub mod Later
pub mod Verify
pub mod Verdict
use craftcontrol.Base.{
  ℕ, Bool, true, false, Option, none, some, List, [], ◌∷◌, ◌++◌, map, String, str_eq, if◌then◌else◌,
  concat, any,
}
use craftcontrol.Base.Dict.{Dict, lookup, contains}
use craftcontrol.Base.Value.{Value, text, time, arr, Items, item, no_items, nested}
use craftcontrol.Schema.{Conversions, Validated, valid, invalid, message, validate_value}
use craftcontrol.Schema.Tables.{settings, property_names}
use craftcontrol.Operation.Lifecycle.{
  StageRecord, OperationStage, is_terminal, active_stage, review, backup_verify, prepare, restart,
  health_wait, verify, confirm_stage,
}
use craftcontrol.Operation.Lifecycle.Machine.{
  Call, to_start, to_skip, to_confirm, to_diverge, to_fail,
}
use craftcontrol.Operation.Worker.State.{
  ◌>>=◌, ◌>>◌, Environment, Reply, answer, broken, World, Effect, Outcome, done, raised, returned,
  Run, ◌>>◌, change, leave, publish, audit_terminal, now, perform, note, save, save_stage,
}
use craftcontrol.Operation.Worker.Observe.{
  observe_container, after_observation, is_online, verify_configuration, begin_step, complete_step,
  fail_step,
}
use craftcontrol.Operation.Worker.Health.{wait_for_health}

-- `set(requested_changes) - PROPERTY_NAMES.keys()`
unfoldable pub unverifiable : Dict Value → List String
unfolding lookup property_names
unverifiable [] = []
unverifiable ((key, value) ∷ d) =
    let rest = unverifiable d in if contains key property_names then rest else key ∷ rest

abbrev pub text_items : List String → Items
text_items [] = no_items
text_items (s ∷ ss) = item (text s) (text_items ss)

-- One setting, before the rest of them: its normal text, or the message of its refusal.
abbrev pub add_validated :
    String → Validated → Reply (Dict Value × Dict Value) → Reply (Dict Value × Dict Value)
add_validated key _ (broken e) = broken e
add_validated key (valid s) (answer (good, bad)) = answer ((key, text s) ∷ good, bad)
add_validated key (invalid e) (answer (good, bad)) = answer (good, (key, text (message e)) ∷ bad)

-- The normal changes and the invalid ones. A key that is no setting raises its `KeyError`.
unfoldable pub normalize : Conversions → Dict Value → Reply (Dict Value × Dict Value)
unfolding lookup settings validate_value message
normalize p [] = answer ([], [])
normalize p ((key, value) ∷ d) =
    let rest = normalize p d in
    elim (lookup key settings) [
      | none ↦ broken (concat "'" (concat key "'"))
      | some definition ↦ add_validated key (validate_value p definition value) rest
    ]

abbrev pub with_world : {A : Type 0} → (World → Run A) → Run A
with_world f w = f w w

abbrev pub record_effect : Effect → World → World
record_effect e w = record w { effects = w.effects ++ e ∷ [] }

abbrev pub set_changes : Dict Value → World → World
set_changes changes w = record w { operation = record w.operation { requested_changes = changes } }

abbrev pub keys : Dict Value → List String
keys d = map (λ entry. entry.0) d

-- `active.stage if active else OperationStage.REVIEW`
abbrev pub stage_or_review : Option StageRecord → OperationStage
stage_or_review none = review
stage_or_review (some r) = r.stage

-- `operation.diverge(…)` and `operation.confirm(…)`
abbrev pub divergence : Dict Value → ℕ → Call
divergence evidence t =
    to_diverge "effective configuration differs from requested changes" none (some evidence) t t t

abbrev pub confirmation : ℕ → Call
confirmation t =
    to_confirm (some (("confirmed_at", time t) ∷ ("last_confirmed_at", time t) ∷ [])) t t t

-- `_live_workers.add` and `.discard`
unfoldable pub enroll : String → List String → List String
enroll id ids = if any (str_eq id) ids then ids else id ∷ ids

unfoldable pub discharge : String → List String → List String
discharge id [] = []
discharge id (i ∷ ids) = let rest = discharge id ids in if str_eq id i then rest else i ∷ rest

module _ (env : Environment) where
  -- `_fail`, then `return`
  unfoldable pub fail_out : OperationStage → String → Option (Dict Value) → Run (Unit {0})
  unfolding fail_step
  fail_out s error evidence = fail_step env s error evidence >> leave

  -- A method that ends the operation, the write of the row, and the two messages.
  unfoldable pub finish : (ℕ → Call) → String → Run (Unit {0})
  unfolding perform save
  finish c action = do perform env c; save env; change (λ w. audit_terminal action (publish w))

  -- REVIEW
  abbrev pub reject_unverifiable : List String → Run (Unit {0})
  reject_unverifiable [] = change (λ w. w)
  reject_unverifiable names =
      fail_out review "requested changes cannot be verified against Bedrock properties"
        (some (("unverifiable_settings", arr (text_items (env.sorted names))) ∷ []))

  abbrev pub settle_review : Reply (Dict Value × Dict Value) → Run (Unit {0})
  settle_review (broken e) w = (raised e, w)
  settle_review (answer (good, [])) w =
      (change (set_changes good)
          >> save env
          >> complete_step env review (some (("changes", arr (text_items (keys good))) ∷ [])))
        w
  settle_review (answer (good, bad)) w =
      fail_out review "requested changes are invalid" (some (("invalid_settings", nested bad) ∷ []))
        w

  unfoldable pub review_stage : Run (Unit {0})
  unfolding begin_step unverifiable normalize fail_out save complete_step
  review_stage = do
    begin_step env review
    with_world (λ w. reject_unverifiable (unverifiable w.operation.requested_changes))
    with_world (λ w. settle_review (normalize env.conversions w.operation.requested_changes))

  -- BACKUP_VERIFY
  unfoldable pub skip_backup : Run (Unit {0})
  unfolding perform save_stage
  skip_backup = do
    perform env (λ t. to_skip backup_verify "no_backup_required" t t)
    save_stage env backup_verify
    change publish

  -- PREPARE
  abbrev pub settle_apply : Reply (Unit {0}) → Run (Unit {0})
  settle_apply (answer _) = complete_step env prepare none
  settle_apply (broken e) = fail_out prepare e none

  unfoldable pub prepare_stage : Run (Unit {0})
  unfolding begin_step complete_step fail_out
  prepare_stage = do
    begin_step env prepare
    change (record_effect Effect.applied)
    settle_apply env.apply_fn

  -- RESTART
  abbrev pub settle_execute : Reply (Unit {0}) → Run (Unit {0})
  settle_execute (answer _) w = complete_step env restart none w
  settle_execute (broken e) w =
      let observation = observe_container env w in
      fail_out restart e (some observation) (note env observation (after_observation env w))

  unfoldable pub restart_stage : Run (Unit {0})
  unfolding begin_step complete_step fail_out observe_container
  restart_stage = do
    begin_step env restart
    change (λ w. record_effect (Effect.executed w.operation.requested_changes) w)
    settle_execute env.execute

  -- HEALTH_WAIT
  abbrev pub settle_health : Bool × Dict Value → Run (Unit {0})
  settle_health (true, evidence) = complete_step env health_wait (some evidence)
  settle_health (false, evidence) =
      fail_out health_wait
        (concat "Bedrock did not become healthy within " (concat env.health_text "s"))
        (some evidence)

  unfoldable pub health_stage : Run (Unit {0})
  unfolding begin_step wait_for_health complete_step fail_out
  health_stage = do begin_step env health_wait; found ← wait_for_health env; settle_health found

  -- VERIFY
  abbrev pub diverge_out : Dict Value → Run (Unit {0})
  diverge_out evidence = finish (divergence evidence) "operation.divergent" >> leave

  abbrev pub unread : String → World → Dict Value
  unread e w =
      observe_container env w
      ++ ("configuration_checked_at", time (now env (after_observation env w)))
        ∷ ("verification_error", text e)
        ∷ []

  abbrev pub settle_verify : Outcome (Bool × Dict Value) → Run (Unit {0})
  settle_verify (raised e) w =
      fail_out verify (concat "could not verify effective configuration: " e) (some (unread e w))
        (note env (unread e w) (after_observation env w))
  settle_verify returned w = leave w
  settle_verify (done (verified, evidence)) w =
      if is_online evidence
      then (if verified then complete_step env verify (some evidence) else diverge_out evidence)
          (note env evidence w)
      else fail_out verify "Bedrock became unhealthy during configuration verification"
          (some evidence) (note env evidence w)

  unfoldable pub verify_stage : Run (Unit {0})
  unfolding begin_step verify_configuration complete_step fail_out observe_container finish
      is_online
  verify_stage = do
    begin_step env verify
    λ w. settle_verify (verify_configuration env w).0 (verify_configuration env w).1

  -- CONFIRM
  unfoldable pub confirm_step : Run (Unit {0})
  unfolding begin_step finish
  confirm_step = do begin_step env confirm_stage; finish confirmation "operation.confirmed"

  -- The body of the `try` of `_run`.
  unfoldable pub carry_out : Run (Unit {0})
  unfolding perform save review_stage skip_backup prepare_stage restart_stage health_stage
      verify_stage confirm_step
  carry_out = do
    perform env to_start
    save env
    review_stage
    skip_backup
    prepare_stage
    restart_stage
    health_stage
    verify_stage
    confirm_step

  abbrev pub fail_internal : OperationStage → String → Run (Unit {0})
  fail_internal s error = do perform env (λ t. to_fail s error none t t t); save env; change publish

  -- The `except` of `_run`.
  abbrev pub recover : Outcome (Unit {0}) × World → Outcome (Unit {0}) × World
  recover (raised e, w) =
      if is_terminal w.operation.state
      then (done tt, w)
      else fail_internal (stage_or_review (active_stage w.operation)) (concat "internal error: " e)
          w
  recover (_, w) = (done tt, w)

  -- `_run`
  unfoldable pub run : Run (Unit {0})
  unfolding carry_out perform save enroll discharge active_stage
  run w0 =
      let id = w0.operation.operation_id in
      let r = recover (carry_out (record w0 { live_workers = enroll id w0.live_workers })) in
      (r.0, record r.1 { live_workers = discharge id r.1.live_workers })

-- ===== src/Operation/Worker/Observe.antt =====
-- operations/service.py: the observation of the container, the comparison of its configuration with
-- what was asked, and what a failure attaches of them.
use craftcontrol.Base.{
  ◌+◌, Bool, true, false, Option, none, some, List, [], ◌∷◌, ◌++◌, String, if◌then◌else◌, str_eq,
}
use craftcontrol.Base.Dict.{Dict, lookup, insert}
use craftcontrol.Base.Value.{Value, null, bool, text, time, arr, Items, item, no_items, nested}
use craftcontrol.Schema.Tables.{property_names}
use craftcontrol.Operation.Lifecycle.{OperationState, OperationStage, review, update_observation}
use craftcontrol.Operation.Lifecycle.Machine.{to_begin, to_complete, to_fail}
use craftcontrol.Operation.Worker.State.{
  ◌>>◌, Environment, Reply, answer, broken, Status, World, Effect, Outcome, done, raised, Run,
  change, publish, audit_terminal, now, perform, note, save, save_stage,
}

-- `obs.get("online")`
abbrev pub is_true : Option Value → Bool
is_true (some (bool b)) = b
is_true _ = false

unfoldable pub is_online : Dict Value → Bool
unfolding lookup
is_online d = is_true (lookup "online" d)

-- `status.get("state", "unknown")`
abbrev pub state_text : Option String → Value
state_text none = text "unknown"
state_text (some s) = text s

-- The properties that the requested changes name, with the values asked for.
unfoldable pub expected_settings : Dict Value → Dict Value
unfolding lookup property_names
expected_settings [] = []
expected_settings ((key, value) ∷ d) =
    let rest = expected_settings d in
    elim (lookup key property_names) [ none ↦ rest | some name ↦ (name, value) ∷ rest ]

abbrev pub or_null : Option String → Value
or_null none = null
or_null (some s) = text s

-- `observed[name] == value`, of a text or `None` and a value
abbrev pub same_value : Option String → Value → Bool
same_value (some s) (text t) = str_eq s t
same_value none null = true
same_value _ _ = false

unfoldable pub observed_settings : Dict String → Dict Value → Dict Value
unfolding lookup
observed_settings properties [] = []
observed_settings properties ((name, value) ∷ d) =
    (name, or_null (lookup name properties)) ∷ observed_settings properties d

unfoldable pub differences : Dict String → Dict Value → List (Dict Value)
unfolding lookup
differences properties [] = []
differences properties ((name, value) ∷ d) =
    let rest = differences properties d in
    if same_value (lookup name properties) value
    then rest
    else (("property", text name)
        ∷ ("expected", value)
        ∷ ("observed", or_null (lookup name properties))
        ∷ [])
      ∷ rest

abbrev pub dict_items : List (Dict Value) → Items
dict_items [] = no_items
dict_items (d ∷ ds) = item (nested d) (dict_items ds)

abbrev pub is_nil {ℓ} : {A : Type ℓ} → List A → Bool
is_nil [] = true
is_nil (x ∷ xs) = false

module _ (env : Environment) where
  abbrev pub snapshot : World → Reply Status → Dict Value
  snapshot w (answer status) =
      ("container_state", state_text status.state)
      ∷ ("online", bool status.online)
      ∷ ("observed_at", time (now env w))
      ∷ []
  snapshot w (broken e) =
      ("container_state", text "error")
      ∷ ("online", bool false)
      ∷ ("error", text e)
      ∷ ("observed_at", time (now env w))
      ∷ []

  -- `_observe_container`: the snapshot, and the time that it takes
  abbrev pub after_observation : World → World
  after_observation w = record w { time = w.time + env.delay w.observed; observed = w.observed + 1 }

  unfoldable pub observe_container : World → Dict Value
  observe_container w = snapshot (after_observation w) (env.status w.observed)

  abbrev pub evidence_of : World → Dict String → Dict Value → Dict Value
  evidence_of w properties expected =
      observe_container w
      ++ ("configuration_checked_at", time (now env (after_observation w)))
        ∷ ("expected_settings", nested expected)
        ∷ ("observed_settings", nested (observed_settings properties expected))
        ∷ ("differences", arr (dict_items (differences properties expected)))
        ∷ []

  abbrev pub compare_settings :
      World → Dict String → Dict Value → Outcome (Bool × Dict Value) × World
  compare_settings w properties expected = (
    done (is_nil (differences properties expected), evidence_of w properties expected),
    after_observation w,
  )

  abbrev pub settle_read : World → Reply (Dict String) → Outcome (Bool × Dict Value) × World
  settle_read w (broken e) = (raised e, w)
  settle_read w (answer properties) =
      compare_settings w properties (expected_settings w.operation.requested_changes)

  -- `_verify_configuration`
  unfoldable pub verify_configuration : Run (Bool × Dict Value)
  unfolding observe_container expected_settings observed_settings differences
  verify_configuration w =
      settle_read (record w { reads = w.reads + 1 }) (env.read_properties w.reads)

  -- The `result` of a reconciliation, by what was found.
  abbrev pub reconciliation : World → String → Dict Value → Dict Value
  reconciliation w state evidence =
      ("reconciled_at", time (now env w))
      ∷ ("state", text state)
      ∷ ("evidence", nested evidence)
      ∷ []

  -- `operation.observation["reconciliation_result"] = result`
  abbrev pub attach : Dict Value → World → World
  attach result w = record w {
    operation = record w.operation {
      observation = insert "reconciliation_result" (nested result) w.operation.observation;
    };
  }

  abbrev pub set_divergent : World → World
  set_divergent w = record w { operation = record w.operation { state = OperationState.divergent } }

  -- `_refresh_observed_settings()`, where it is given; what it raises is dropped
  abbrev pub refresh : World → World
  refresh w = record w { effects = w.effects ++ Effect.refreshed ∷ [] }

  -- The rest of the reconciliation, by what the verification of an online server came to.
  abbrev pub reconcile_online : Outcome (Bool × Dict Value) → World → World
  reconcile_online (done (verified, evidence)) w0 =
      let w = note env evidence w0 in
      if is_online evidence
      then (if verified
          then refresh (attach (reconciliation w "applied" evidence) w)
          else refresh (attach (reconciliation w "diverged" evidence) (set_divergent w)))
      else attach (reconciliation w "unknown" evidence) w
  reconcile_online (raised e) w =
      attach (reconciliation w "unknown" (("verification_error", text e) ∷ [])) w
  reconcile_online Outcome.returned w = w

  -- `_reconcile_failed_operation`
  unfoldable pub reconcile_failed_operation : World → World
  unfolding verify_configuration is_online insert update_observation
  reconcile_failed_operation w0 =
      let observation = observe_container w0 in
      let w = note env observation (after_observation w0) in
      if is_online observation
      then reconcile_online (verify_configuration w).0 (verify_configuration w).1
      else attach (reconciliation w "unknown" observation) w

  abbrev pub reconcile_unless_review : OperationStage → World → World
  reconcile_unless_review review w = w
  reconcile_unless_review _ w = reconcile_failed_operation w

  -- `_begin`
  unfoldable pub begin_step : OperationStage → Run (Unit {0})
  unfolding perform save_stage
  begin_step s = do perform env (λ t. to_begin s none t t); save_stage env s; change publish

  -- `_complete`
  unfoldable pub complete_step : OperationStage → Option (Dict Value) → Run (Unit {0})
  unfolding perform save_stage
  complete_step s evidence = do
    perform env (λ t. to_complete s evidence t t)
    save_stage env s
    change publish

  -- `_fail`
  unfoldable pub fail_step : OperationStage → String → Option (Dict Value) → Run (Unit {0})
  unfolding perform save reconcile_failed_operation
  fail_step s error evidence = do
    perform env (λ t. to_fail s error evidence t t t)
    change (reconcile_unless_review s)
    save env
    change (λ w. audit_terminal "operation.failed" (publish w))

-- ===== src/Operation/Worker/Reconcile.antt =====
-- operations/service.py: the reconciliation of a failed or divergent operation with the server, at an
-- operator's request.
pub mod Keeps
pub mod Answers
use craftcontrol.Base.{
  ◌+◌, Bool, true, false, Option, none, some, [], ◌∷◌, String, str_eq, if◌then◌else◌, not, ◌&&◌,
  ◌||◌, concat,
}
use craftcontrol.Base.Dict.{Dict, lookup, insert, contains}
use craftcontrol.Base.Value.{Value, text, time, arr, nested}
use craftcontrol.Schema.Tables.{property_names}
use craftcontrol.Operation.Lifecycle.{ServerOperation, OperationState, is_empty, update_observation}
use craftcontrol.Operation.Service
use craftcontrol.Operation.Service.{retryable, Table}
use craftcontrol.Operation.Worker.State.{
  Environment, Reply, answer, broken, World, Outcome, done, raised, returned, Run, now, note,
  publish,
}
use craftcontrol.Operation.Worker.Observe.{
  observe_container, after_observation, is_online, is_nil, verify_configuration,
}
use craftcontrol.Operation.Worker.Stages.{unverifiable, text_items}

-- `state.value`
abbrev pub state_value : OperationState → String
state_value OperationState.pending = "pending"
state_value OperationState.running = "running"
state_value OperationState.confirmed = "confirmed"
state_value OperationState.failed = "failed"
state_value OperationState.divergent = "divergent"

-- `if not operation.terminal_error: operation.terminal_error = error`
abbrev pub error_or : String → Option String → Option String
error_or error none = some error
error_or error (some e) = if is_empty e then some error else some e

-- `self._server_id` and a state that may be reconciled
abbrev pub is_eligible : String → ServerOperation → Bool
is_eligible server op = str_eq op.server_id server && retryable op.state

abbrev pub set_verdict : OperationState → Option String → World → World
set_verdict state error w = record w {
  operation = record w.operation { state = state; terminal_error = error };
}

-- `{k: v for k, v in … if k in PROPERTY_NAMES}` is not empty
unfoldable pub has_verifiable : Dict Value → Bool
unfolding lookup property_names
has_verifiable [] = false
has_verifiable ((key, value) ∷ d) = contains key property_names || has_verifiable d

module _ (env : Environment) where
  -- `operation.observation["reconciliation_result"] = {…}`
  abbrev pub conclude : String → Dict Value → World → World
  conclude state evidence w = record w {
    operation = record w.operation {
      observation =
          insert "reconciliation_result"
            (nested (
              ("state", text state)
              ∷ ("reconciled_at", time (now env w))
              ∷ ("evidence", nested evidence)
              ∷ []))
            w.operation.observation;
    };
  }

  -- The verdict, by what the verification came to.
  abbrev pub judge : Outcome (Bool × Dict Value) → World → World
  judge returned w = w
  judge (raised e) w =
      conclude "failed" (("error", text e) ∷ []) (
        set_verdict OperationState.failed (some (concat "reconciliation verification failed: " e))
          w)
  judge (done (verified, evidence)) w0 =
      let w = note env evidence w0 in
      if not (is_online evidence)
      then conclude "failed" evidence (
          set_verdict OperationState.failed
            (some "server offline during configuration verification") w)
      else if verified
      then conclude "confirmed" evidence (set_verdict OperationState.confirmed none w)
      else conclude "divergent" evidence (
          set_verdict OperationState.divergent
            (error_or "effective configuration differs from requested changes"
              w.operation.terminal_error)
            w)

  abbrev pub is_divergent : OperationState → Bool
  is_divergent OperationState.divergent = true
  is_divergent _ = false

  -- `_apply` on an eligible row, with the observation made before
  abbrev pub reconcile_row : Dict Value → World → World
  reconcile_row observation w0 =
      let w = note env observation w0 in
      let names = unverifiable w.operation.requested_changes in
      if not (is_nil names)
      then conclude (state_value w.operation.state)
          (("unverifiable_settings", arr (text_items (env.sorted names))) ∷ []) w
      else if is_online observation && has_verifiable w.operation.requested_changes
      then judge (verify_configuration env w).0 (verify_configuration env w).1
      else if not (is_online observation) && is_divergent w.operation.state
      then set_verdict OperationState.failed (some "server offline during reconciliation") w
      else w

  -- The row that `_apply` leaves, written and published.
  abbrev pub settle_reconciled : World → Reply (Unit {0}) → Outcome (Option ServerOperation) × World
  settle_reconciled w (broken e) = (raised e, record w { writes = w.writes + 1 })
  settle_reconciled w (answer _) = (
    done (some w.operation),
    publish (record w { table = Service.save w.operation w.table; writes = w.writes + 1 }),
  )

  abbrev pub store_reconciled : World → Outcome (Option ServerOperation) × World
  store_reconciled w = settle_reconciled w (env.write w.writes)

  -- `_apply` in its transaction, on the row as it is by then
  abbrev pub apply_reconciliation :
      String → String → Dict Value → World → Outcome (Option ServerOperation) × World
  apply_reconciliation server id observation w = elim (lookup id w.table) [
    | none ↦ (done none, w)
    | some op ↦
        let w' = record w { operation = op } in
        store_reconciled (if is_eligible server op then reconcile_row observation w' else w')
  ]

  -- `request_reconciliation`; what other threads write during the observation is the argument
  -- `meanwhile`
  unfoldable pub request_reconciliation :
      String → String → (Table → Table) → Run (Option ServerOperation)
  unfolding observe_container verify_configuration unverifiable has_verifiable is_online lookup
      insert update_observation Service.save
  request_reconciliation server id meanwhile w = elim (lookup id w.table) [
    | none ↦ (done none, w)
    | some probe ↦
        if not (is_eligible server probe)
        then (done (some probe), w)
        else apply_reconciliation server id (observe_container env w)
            (record (after_observation env w) { table = meanwhile w.table })
  ]

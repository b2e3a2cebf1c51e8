-- ===== src/Agent/Executor.antt =====
-- runtime/operations.py: `OperationExecutor.run`, the three stages of one operation.
-- The ports (file system, container runner, health probe), the clock and the success of each write
-- of the store to SQLite are the environment; what the ports are asked is recorded in order.
pub mod Verdict
pub mod Order
pub mod Induction
use craftcontrol.Base.{
  ℕ, ◌≡◌, refl, ◌⊎◌, inl, inr, Bool, true, false, Option, none, some, List, [], ◌∷◌, ◌++◌, String,
  if◌then◌else◌, concat,
}
use craftcontrol.Base.Dict.{Dict, lookup}
use craftcontrol.Base.Int.{ℤ, pos}
use craftcontrol.Base.Value.{Value, int, bool}
use craftcontrol.Agent.Record
use craftcontrol.Agent.Record.{
  OperationRecord, Stage, prepare, restart, health_wait, Outcome, ErrorCode, Status,
}
use craftcontrol.Agent.Settings.{build_updates}
use craftcontrol.Agent.Store.{Store, update}

-- What a call of a port does: it returns, or raises an exception with a text and a type name.
pub data Attempt {ℓ} (A : Type ℓ) : Type ℓ where
  returned : A → Attempt A
  raised : String → String → Attempt A

pub Attempt-cases {ℓ} :
    {A : Type ℓ} (m : Attempt A)
    → ((d : String) × (t : String) × (m ≡ raised d t)) ⊎ ((a : A) × (m ≡ returned a))
Attempt-cases (returned a) = inr (a, refl)
Attempt-cases (raised d t) = inl (d, t, refl)

-- `restart` may also raise `RestartTimeoutError`.
pub data Restart : Type 0 where
  restarted : String → Restart
  timed_out : String → Restart
  broken : String → String → Restart

pub Restart-cases :
    (m : Restart)
    → ((d : String) × (m ≡ timed_out d))
      ⊎ ((d : String) × (t : String) × (m ≡ broken d t))
      ⊎ ((ref : String) × (m ≡ restarted ref))
Restart-cases (restarted ref) = inr (inr (ref, refl))
Restart-cases (timed_out d) = inl (d, refl)
Restart-cases (broken d t) = inr (inl (d, t, refl))

pub record Environment : Type 0 where
  pub write_properties : Dict String → Attempt (Unit {0})
  pub restart_container : ℕ → Restart
  pub wait_healthy : String → ℤ → ℕ → Attempt Bool
  pub clock : ℕ
  -- whether the write of a stage's start, or of the end (`none`), reaches SQLite
  pub written : Option Stage → Bool

-- A call of a port.
pub data Effect : Type 0 where
  wrote : Dict String → Effect
  restarting : ℕ → Effect
  probed : String → ℤ → ℕ → Effect

pub record World : Type 0 where
  pub store : Store
  pub effects : List Effect

abbrev pub emit : Effect → World → World
emit e w = record w { effects = w.effects ++ e ∷ [] }

-- `store.update(operation_id, current_stage=…)`
abbrev pub enter : Environment → String → Stage → World → World
enter env oid s w = record w {
  store = update (env.written (some s)) oid (λ r. record r { current_stage = some s }) w.store;
}

-- The keyword arguments of the updates that end an operation.
pub record Ending : Type 0 where
  pub outcome : Outcome
  pub executor_ref : Option String
  pub health_reached : Bool
  pub failed_stage : Option Stage
  pub detail : String
  pub error_code : Option ErrorCode
  pub exception_type : Option String

abbrev pub finish : ℕ → Ending → OperationRecord → OperationRecord
finish now e r = record r {
  status = Status.done;
  current_stage = none;
  outcome = some e.outcome;
  executor_ref = e.executor_ref;
  health_reached = some e.health_reached;
  failed_stage = e.failed_stage;
  detail = some e.detail;
  error_code = e.error_code;
  exception_type = e.exception_type;
  completed_at = some now;
}

abbrev pub conclude : Environment → String → Ending → World → World
conclude env oid e w = record w {
  store = update (env.written none) oid (finish env.clock e) w.store;
}

abbrev pub failure : Stage → ErrorCode → Option String → String → Option String → Ending
failure s code ref detail type = record {
  outcome = Outcome.error;
  executor_ref = ref;
  health_reached = false;
  failed_stage = some s;
  detail = detail;
  error_code = some code;
  exception_type = type;
}

abbrev pub success : String → Ending
success ref = record {
  outcome = Outcome.success;
  executor_ref = some ref;
  health_reached = true;
  failed_stage = none;
  detail = "Server reached healthy state";
  error_code = none;
  exception_type = none;
}

-- `int(intended_state.get("server_port", BEDROCK_DEFAULT_PORT))`; a value that is no integer, which
-- validation refuses, makes `int` raise, and so does here a text, of which `int` reads the digits
unfoldable pub server_port : Dict Value → Attempt ℤ
unfolding lookup
server_port state = elim (lookup "server_port" state) [
  | none ↦ returned (pos 19132)
  | some value ↦ elim value [
    | int n ↦ returned n
    | bool b ↦ returned (if b then pos 1 else pos 0)
    | _ ↦ raised "server_port is not an integer" "ValueError"
  ]
]

abbrev pub is_empty_dict : Dict String → Bool
is_empty_dict [] = true
is_empty_dict (_ ∷ _) = false

module _ (str : Value → String) (env : Environment) (oid : String) (state : Dict Value) where
  -- the stage `health_wait`, after a restart with the reference `ref`
  unfoldable pub run_health_wait : ℕ → String → World → World
  unfolding server_port update
  run_health_wait timeout ref w0 =
      let w = enter env oid health_wait w0 in
      elim (server_port state) [
        | raised detail type ↦
            conclude env oid
              (failure health_wait ErrorCode.health_wait_error (some ref) detail (some type)) w
        | returned port ↦
            let w' = emit (probed "127.0.0.1" port timeout) w in
            elim (env.wait_healthy "127.0.0.1" port timeout) [
              | raised detail type ↦
                  conclude env oid
                    (failure health_wait ErrorCode.health_wait_error (some ref) detail (some type))
                    w'
              | returned true ↦ conclude env oid (success ref) w'
              | returned false ↦
                  conclude env oid
                    (failure health_wait ErrorCode.health_probe_timeout (some ref)
                      (concat "Server did not reach healthy state within "
                        (concat (str (int (pos timeout))) "s"))
                      none)
                    w'
            ]
      ]

  unfoldable pub run_restart : ℕ → ℕ → World → World
  unfolding run_health_wait update
  run_restart health_timeout timeout w0 =
      let w = emit (restarting timeout) (enter env oid restart w0) in
      elim (env.restart_container timeout) [
        | restarted ref ↦ run_health_wait health_timeout ref w
        | timed_out detail ↦
            conclude env oid
              (failure restart ErrorCode.restart_timeout none "docker compose restart timed out"
                (some "RestartTimeoutError"))
              w
        | broken detail type ↦
            conclude env oid
              (failure restart ErrorCode.restart_command_failed none detail (some type)) w
      ]

  -- `OperationExecutor.run`
  unfoldable pub run : ℕ → ℕ → World → World
  unfolding run_restart update build_updates
  run health_timeout restart_timeout w0 =
      let w = enter env oid prepare w0 in
      let updates = build_updates str state in
      if is_empty_dict updates
      then run_restart health_timeout restart_timeout w
      else (let w' = emit (wrote updates) w in
          elim (env.write_properties updates) [
            | returned _ ↦ run_restart health_timeout restart_timeout w'
            | raised detail type ↦
                conclude env oid
                  (failure prepare ErrorCode.preparation_write_failed none detail (some type)) w'
          ])

-- ===== src/Operation/Worker/Scenarios.antt =====
-- Scenarios of the worker thread, at concrete inputs.
use craftcontrol.Base.{
  ◌⊎◌, ℕ, ◌+◌, ◌*◌, ◌≤◌, is_some, eq_iff, sym, ap, ◌∙◌, Bool-cases, str_eq, str_eq→eq, inl, inr,
  ◌≡◌, ◌≢◌, refl, true, false, none, some, List, [], ◌∷◌, String, zero, suc, arith,
}
use mathlib.Core.Path.{subst}
use craftcontrol.Base.Dict.{lookup, insert, update, IsDistinct}
use craftcontrol.Base.Value.{Value, text, fields}
use craftcontrol.Schema.{
  validate_value, validate_kind, validate_text, strip_left, strip_right, has_control, chars,
  is_space,
}
use craftcontrol.Schema.Tables.{settings, property_names}
use craftcontrol.Operation.Lifecycle.{
  ServerOperation, OperationState, create, is_terminal, start, begin_stage, complete_stage,
  skip_stage, confirm, modify_stage, update_observation, fail_stage, restart, prepare,
}
use craftcontrol.Operation.Lifecycle.Machine.{call, after, to_fail}
use craftcontrol.Operation.Lifecycle.Invariant.{IsWellFormed, create-IsWellFormed}
use craftcontrol.Operation.Service
use craftcontrol.Operation.Service.{update_stage, get_active, newest}
use craftcontrol.Operation.Service.Single.{IsSingle, some_injective}
use craftcontrol.Operation.Worker.State.{
  done, Environment, Reply, answer, broken, Status, World, perform, save, save_stage,
}
use craftcontrol.Operation.Worker.Observe.{
  after_observation, is_online, expected_settings, observed_settings, differences,
  observe_container, verify_configuration, begin_step, complete_step,
}
use craftcontrol.Operation.Worker.Health.{
  update_active, record_health_observation, health_round, health_loop, wait_for_health,
  health_loop-terminates,
}
use craftcontrol.Operation.Worker.Health.Bound.{wait_for_health-observed}
use craftcontrol.Operation.Worker.Reconcile.{reconcile_row, has_verifiable, request_reconciliation}
use craftcontrol.Operation.Worker.Reconcile.Answers.{request_reconciliation-confirmed}
use craftcontrol.Operation.Worker.Reconcile.Keeps.{IsSeen}
use craftcontrol.Operation.Worker.Reclaim.{reclaim_stalled, is_live}
use craftcontrol.Operation.Worker.Reclaim.Frees.{
  AreKept, reclaim_stalled-changed, reclaim_stalled-frees,
}
use craftcontrol.Operation.Lifecycle.Machine.{to_start, to_begin, to_fail}
use craftcontrol.Operation.Worker.Threads.{
  Process, Request, change, retry, act, called, reconcile, whole, stage_of, requests,
}
use craftcontrol.Operation.Worker.Threads.Single.{IsKeyed, requests-IsSingle}
use craftcontrol.Operation.Worker.Stages.{
  unverifiable, normalize, enroll, discharge, finish, review_stage, skip_backup, prepare_stage,
  restart_stage, health_stage, verify_stage, confirm_step, carry_out, run,
}
use craftcontrol.Operation.Worker.Stages.Post.{IsVerified, IsStored}
use craftcontrol.Operation.Worker.Stages.Verdict.{
  IsPending, run-IsWellFormed, run-IsVerified, run-IsStored,
}

abbrev text_of : Value → String
text_of (text s) = s
text_of v = "other"

-- A server that is online from its second observation on and has the mode that is asked for.
abbrev status_at : ℕ → Reply Status
status_at zero = broken "connection refused"
status_at (suc n) = answer (record { state = some "running"; online = true })

abbrev environment : Environment
environment = record {
  conversions = record { str = text_of; int_of = λ v. none; str_int = λ n. "0" };
  sorted = λ names. names;
  refusal_text = λ e. "refused";
  apply_fn = answer tt;
  execute = answer tt;
  status = status_at;
  read_properties = λ n. answer (("gamemode", "creative") ∷ []);
  write = λ n. answer tt;
  wall = λ t. t;
  delay = λ n. 1000;
  oversleep = λ n. 7;
  health_timeout = 10;
  health_text = "10";
}

abbrev requested : ServerOperation
requested = create "op-1" 1 "default" (("GAMEMODE", text " creative ") ∷ []) none none

requested-IsPending : IsPending requested
unfolding create
requested-IsPending = record {
  well_formed =
      create-IsWellFormed "op-1" 1 "default" (("GAMEMODE", text " creative ") ∷ []) none none;
  pending = refl;
}

abbrev world : World
world = record {
  operation = requested;
  table = ("op-1", requested) ∷ [];
  time = 1000;
  writes = 0;
  observed = 0;
  reads = 0;
  published = [];
  audits = [];
  effects = [];
  live_workers = [];
}

run-confirmed : (run environment world).1.operation.state ≡ OperationState.confirmed
unfolding run carry_out review_stage skip_backup prepare_stage restart_stage health_stage
    verify_stage confirm_step finish begin_step complete_step perform save save_stage update_stage
    Service.save call create start begin_stage complete_stage skip_stage confirm modify_stage
    update_observation update insert lookup fields normalize unverifiable settings property_names
    validate_value validate_kind validate_text strip_left strip_right has_control chars is_space
    enroll discharge wait_for_health health_loop health_round record_health_observation
    update_active observe_container verify_configuration is_online expected_settings
    observed_settings differences
run-confirmed = refl

run-IsWellFormed_example :
    IsWellFormed (run environment world).1.operation
    × (is_terminal (run environment world).1.operation.state ≡ true)
run-IsWellFormed_example = run-IsWellFormed environment world requested-IsPending

run-IsVerified_example :
    IsVerified environment (run environment world).1.operation.requested_changes
run-IsVerified_example = run-IsVerified environment world requested-IsPending run-confirmed

run-IsStored_example :
    IsStored environment (run environment world).1.operation (run environment world).1.table
run-IsStored_example = run-IsStored environment world (λ n. refl) requested-IsPending

-- Two rounds for a timeout of ten seconds, and one for the last test.
health_loop-terminates_example :
    is_some (health_loop environment 3 (1000 + 10_000_000) 0 [] world) ≡ true
health_loop-terminates_example =
    health_loop-terminates environment 2 (1000 + 10_000_000) 0 [] world (ground arith)

wait_for_health-observed_example : (wait_for_health environment world).1.observed ≤ 0 + 2
wait_for_health-observed_example = wait_for_health-observed environment 2 world (ground arith)

-- Sixteen minutes after the last update.
abbrev late : World
late = record world { time = 960_000_000 }

requested_active : get_active "default" late.table ≡ some requested
unfolding get_active newest create
requested_active = refl

late-IsDistinct : IsDistinct late.table
unfolding lookup
late-IsDistinct = (refl, tt)

late-IsSingle : IsSingle "default" late.table
unfolding IsSingle lookup
late-IsSingle = λ i j a b f g x y. ground (arith, f, g, eq_iff "op-1" i, eq_iff "op-1" j)

late-AreKept : AreKept late.table
unfolding lookup create
late-AreKept = λ k op f. elim (Bool-cases (str_eq "op-1" k)) [
  | inl same ↦
      subst (λ x. (x.operation_id ≡ k) × IsWellFormed x) (some_injective (rw same at f))
        (str_eq→eq "op-1" k same, requested-IsPending.well_formed)
  | inr other ↦ ground (arith, rw other at f)
]

requested_silent : requested.updated_at + 900 * 1_000_000 ≤ late.time
unfolding create
requested_silent = ground arith

changed : (reclaim_stalled environment "default" 900 "silent" true false true late).1 ≢ late
changed = λ h.
    let free =
      reclaim_stalled-frees environment "default" 900 "silent" true late requested (λ n. refl)
        late-IsDistinct late-IsSingle late-AreKept requested_active refl requested_silent in
    let e = sym free ∙ ap (λ w. get_active "default" w.table) h ∙ requested_active in cc

reclaim_stalled-changed_example :
    (op : ServerOperation) × (get_active "default" late.table ≡ some op)
    × (is_live op late ≡ false)
    × (op.updated_at + 900 * 1_000_000 ≤ late.time)
reclaim_stalled-changed_example =
    reclaim_stalled-changed environment "default" 900 "silent" true false true late changed

reclaim_stalled-frees_example :
    get_active "default"
      (reclaim_stalled environment "default" 900 "silent" true false true late).1.table
    ≡ none
reclaim_stalled-frees_example =
    reclaim_stalled-frees environment "default" 900 "silent" true late requested (λ n. refl)
      late-IsDistinct late-IsSingle late-AreKept requested_active refl requested_silent

-- The operation, failed while the server was already as it was asked to be.
abbrev failed : ServerOperation
failed = after requested (call (to_fail restart "timed out" none 2 3 4) requested)

-- The changes as REVIEW leaves them.
abbrev reviewed : World
reviewed = record world {
  operation = record failed { requested_changes = ("GAMEMODE", text "creative") ∷ [] };
}

-- An operator asks for a reconciliation, and nothing else writes in the meantime.
abbrev asked : World
asked = record reviewed { table = ("op-1", reviewed.operation) ∷ []; observed = 1 }

abbrev reconciled : ServerOperation
reconciled =
    (reconcile_row environment (observe_container environment asked)
      (after_observation environment asked)).operation

reconciled_answer :
    (request_reconciliation environment "default" "op-1" (λ t. t) asked).0 ≡ done (some reconciled)
unfolding request_reconciliation lookup call create fail_stage modify_stage
reconciled_answer = refl

reconciled_confirmed : reconciled.state ≡ OperationState.confirmed
unfolding call create fail_stage modify_stage update_observation update insert lookup fields
    unverifiable property_names verify_configuration observe_container is_online expected_settings
    observed_settings differences has_verifiable
reconciled_confirmed = refl

request_reconciliation-confirmed_example :
    (lookup "op-1" asked.table ≡ some reconciled)
    ⊎ ((lookup "op-1" asked.table ≡ some reconciled)
        ⊎ IsSeen environment reconciled.requested_changes)
request_reconciliation-confirmed_example =
    request_reconciliation-confirmed environment "default" "op-1" (λ t. t) asked reconciled
      reconciled_answer reconciled_confirmed

-- The thread of the first request fails and ends, a second request is refused, the first operation is
-- reconciled, and a retry of it starts.
abbrev new_process : Process
new_process = record {
  service = record { server_id = "default"; table = []; started = [] };
  copies = [];
}

abbrev rush : List Request
rush =
    change "a" 1 [] none
    ∷ change "b" 2 [] none
    ∷ act "a" (called (to_start 3)) whole
    ∷ act "a" (called (to_begin prepare none 4 5)) (stage_of prepare)
    ∷ act "a" (called (to_fail prepare "disk full" none 6 7 8)) whole
    ∷ Request.finish "a"
    ∷ reconcile environment "a" [] world
    ∷ retry "c" 9 "a" none
    ∷ []

new_process-IsSingle : IsSingle "default" []
unfolding IsSingle lookup
new_process-IsSingle = λ i j a b f g x y. cc

new_process-IsKeyed : IsKeyed []
unfolding lookup
new_process-IsKeyed = λ k op f. cc

requests-IsSingle_example :
    IsSingle (requests rush new_process).service.server_id (requests rush new_process).service.table
requests-IsSingle_example =
    requests-IsSingle rush new_process refl new_process-IsKeyed new_process-IsSingle

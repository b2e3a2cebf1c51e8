-- ===== src/Agent/Scenarios.antt =====
-- Scenarios of the agent, at concrete inputs.
use mathlib.Core.Path.{subst}
use craftcontrol.Base.{
  ◌≡◌, refl, true, false, none, some, List, [], ◌∷◌, String, str_eq, if◌then◌else◌, All, ◌⊎◌, arith,
}
use craftcontrol.Base.Dict.{Dict, lookup, insert}
use craftcontrol.Base.Int.{pos}
use craftcontrol.Base.Value.{Value, int, text}
use craftcontrol.Agent.Record.{new_record, columns}
use craftcontrol.Agent.Store.{Store, get, create, persist, load_and_recover}
use craftcontrol.Agent.Store.Mirror.{IsMirror, create-IsMirror}
use craftcontrol.Agent.Store.Recovery.{restarted, get-load_and_recover}
use craftcontrol.Agent.Settings.{
  value_error, enum_allowed, int_fields, port_fields, bool_fields, float_fields, has_newline,
  validate, build_updates,
}
use craftcontrol.Agent.Settings.Safety.{CleanUpdates, build_updates-CleanUpdates}
use craftcontrol.Agent.Executor.{Environment, World, returned, timed_out, run}
use craftcontrol.Agent.Executor.Verdict.{
  Ended, EndsAs, first_failure, prepared, reference, run-EndsAs,
}
use craftcontrol.Agent.Queue.{QueuedOperation, OperationQueue, work_times}
use craftcontrol.Agent.Queue.Drain.{IsDone, work_times-drain}
use craftcontrol.Agent.Handler.{Server, accept, at_capacity, set_queue_full}
use craftcontrol.Agent.Handler.Accept.{accept_new}
use craftcontrol.Agent.Handler.Once.{
  Event, posted, worked, events, accept_once, QueueKnown, KnownItems,
}
use craftcontrol.Agent.Router.{
  Request, Context, verify_bearer_token, after_prefix, do_get, do_post, unauthorized, unknown_path,
  before_query,
}
use craftcontrol.Agent.Router.Guard.{unauthorized_inert}

-- Texts of values without a line break.
abbrev plain : Value → String
plain (text s) = s
plain _ = "20"

abbrev no_listing : List String → String
no_listing options = ""

abbrev wanted : Dict Value
wanted = ("max_players", int (pos 20)) ∷ ("server_name", text "Home") ∷ []

abbrev item : QueuedOperation
item = record {
  operation_id = "a";
  intended_state = wanted;
  health_timeout = 30;
  restart_timeout = 60;
}

-- The restart runs out of time.
abbrev slow : Environment
slow = record {
  write_properties = λ _. returned tt;
  restart_container = λ _. timed_out "docker restart";
  wait_healthy = λ _ _ _. returned true;
  clock = 50;
  written = λ _. true;
}

abbrev empty : Store
empty = record { records = []; conn = some [] }

abbrev one_record : Store
one_record = (create true "a" empty).0

abbrev world : World
world = record { store = one_record; effects = [] }

one_record_found : get "a" one_record ≡ some (new_record "a")
unfolding get create persist insert lookup
one_record_found = refl

empty-IsMirror : IsMirror empty
unfolding get lookup
empty-IsMirror = record { keyed = λ k r h. cc; same_rows = λ table h k. ground (arith, h) }

one_record-IsMirror : IsMirror one_record
one_record-IsMirror = create-IsMirror "a" empty empty-IsMirror

get-load_and_recover_example :
    get "a" (load_and_recover (λ _. false) 90 (("a", columns (new_record "a")) ∷ []))
    ≡ restarted 90 (get "a" one_record)
unfolding create persist insert lookup
get-load_and_recover_example =
    get-load_and_recover one_record (("a", columns (new_record "a")) ∷ []) (λ _. false) 90 "a"
      one_record-IsMirror refl (refl, tt)

wanted_valid : validate plain no_listing wanted ≡ none
unfolding validate value_error enum_allowed int_fields port_fields bool_fields float_fields lookup
    has_newline
wanted_valid = refl

build_updates-CleanUpdates_example : CleanUpdates (build_updates plain wanted)
unfolding has_newline
build_updates-CleanUpdates_example =
    build_updates-CleanUpdates plain no_listing (λ n. refl) (λ s. refl) wanted wanted_valid

run-EndsAs_example :
    Ended plain slow "a" wanted
      (EndsAs plain slow "a" wanted
        (first_failure plain slow "a" wanted 30 60)
        (if prepared plain slow "a" wanted then reference plain slow "a" wanted 60 else none))
      (get "a" (run plain slow "a" wanted 30 60 world).store)
run-EndsAs_example = run-EndsAs plain slow "a" wanted 30 60 world (new_record "a") one_record_found

abbrev queue : OperationQueue
queue = record { items = item ∷ []; maxsize = 2; worker_count = 1 }

work_times-drain_example :
    let (q', w') = work_times plain (λ _. slow) 1 (queue, world) in
    (q'.items ≡ []) × All (λ i. IsDone w' i.operation_id) (item ∷ [])
work_times-drain_example =
    work_times-drain plain (λ _. slow) queue world (rw one_record_found (tt, tt))

abbrev server : Server
server = record { store = empty; operation_queue = some queue; threads = [] }

abbrev full_server : Server
full_server = record server { operation_queue = some (record queue { maxsize = 1 }) }

accept_new_example :
    let (s', r) = accept true 70 item full_server in
    (r ≡ at_capacity)
    × (s'.operation_queue ≡ some (record queue { maxsize = 1 }))
    × (get "a" s'.store ≡ some (set_queue_full 70 (new_record "a")))
    × ((k : String) → str_eq "a" k ≡ false → get k s'.store ≡ get k empty)
unfolding get lookup
accept_new_example = accept_new true 70 item full_server (record queue { maxsize = 1 }) refl refl

abbrev busy_server : Server
busy_server = record server { store = one_record }

abbrev between : List Event
between = worked ∷ posted true 75 item ∷ worked ∷ []

accept_once_example :
    let s' = events plain (λ _. slow) between (accept true 70 item server).0 in
    (accept true 80 item s').0 ≡ s'
accept_once_example = accept_once plain (λ _. slow) true true 70 80 item item between server refl

some_injective : {x y : OperationQueue} → some x ≡ some y → x ≡ y
some_injective h = cc

busy_QueueKnown : QueueKnown busy_server
busy_QueueKnown = λ q h.
    subst (λ x. KnownItems one_record x.items) (some_injective h) (rw one_record_found (tt, tt))

abbrev context : Context
context = record {
  token = "secret";
  str = plain;
  listing = no_listing;
  now = 70;
  written = λ _. true;
  bedrock_running = true;
}

abbrev intruder : Request
intruder = record {
  path = "/v1/execute";
  authorization = "Bearer guess";
  content_length = none;
  loads = λ _. none;
}

unauthorized_inert_example :
    (do_post context intruder server ≡ (
      server,
      if str_eq (before_query "/v1/execute") "/v1/execute" then unauthorized else unknown_path,
    ))
    × ((do_get context intruder server).0 ≡ server)
    × (str_eq (before_query "/v1/execute") "/v1/health" ≡ false
        → ((do_get context intruder server).1.status ≡ 401)
          ⊎ ((do_get context intruder server).1.status ≡ 404))
unfolding verify_bearer_token after_prefix
unauthorized_inert_example = unauthorized_inert context intruder server refl

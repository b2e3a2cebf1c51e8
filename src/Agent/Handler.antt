-- ===== src/Agent/Handler.antt =====
-- http/handler.py: the endpoints of the agent.
-- A handler returns the new state of the server beside its response. The parameters are Python's
-- `str`, the text of a sorted list, and JSON parsing; the arguments give the clock and whether the
-- writes of the store reach SQLite.
pub mod Accept
pub mod Once
use craftcontrol.Base.{
  ℕ, ◌*◌, ◌≡◌, refl, ◌⊎◌, inl, inr, Bool, Option, none, some, List, [], ◌∷◌, ◌++◌, String, leb,
  if◌then◌else◌, concat, not, ◌&&◌, ◌||◌,
}
use craftcontrol.Base.Dict.{Dict, lookup, contains}
use craftcontrol.Base.Int.{ℤ, pos, leb_ℤ}
use craftcontrol.Base.Value.{Value, bool, int, text, obj, entries}
use craftcontrol.Agent.Record.{
  OperationRecord, Status, Outcome, ErrorCode, to_running_dict, to_done_dict,
}
use craftcontrol.Agent.Settings.{field_map, validate}
use craftcontrol.Agent.Store.{Store, get, create, update, evict_expired, is_running}
use craftcontrol.Agent.Queue.{QueuedOperation, OperationQueue, enqueue, queue_depth}

pub record Response : Type 0 where
  pub status : ℕ
  pub body : Dict Value

-- The attributes that `build_handler_class` injects; `threads` are the threads started where there
-- is no queue.
pub record Server : Type 0 where
  pub store : Store
  pub operation_queue : Option OperationQueue
  pub threads : List QueuedOperation

abbrev pub bad_request : String → Response
bad_request message = record {
  status = 400;
  body = ("error", text "bad_request") ∷ ("message", text message) ∷ [];
}

abbrev pub conflict : String → Response
conflict oid = record {
  status = 409;
  body =
      ("error", text "conflict")
      ∷ ("operation_id", text oid)
      ∷ ("message", text "Operation already in progress")
      ∷ [];
}

abbrev pub accepted : String → Response
accepted oid = record {
  status = 202;
  body = ("operation_id", text oid) ∷ ("status", text "accepted") ∷ [];
}

abbrev pub at_capacity : Response
at_capacity = record {
  status = 503;
  body =
      ("error", text "queue_full")
      ∷ ("message", text "Operation queue is at capacity; try again later")
      ∷ [];
}

-- MAX_BODY_BYTES
abbrev max_body_bytes : ℕ
max_body_bytes = 64 * 1024

-- What a step of a request comes to: the response that ends it, or a value to go on with.
pub data Checked {ℓ} (A : Type ℓ) : Type ℓ where
  refused : Response → Checked A
  valid : A → Checked A

pub Checked-cases {ℓ} :
    {A : Type ℓ} (m : Checked A) → ((r : Response) × (m ≡ refused r)) ⊎ ((a : A) × (m ≡ valid a))
Checked-cases (refused r) = inl (r, refl)
Checked-cases (valid a) = inr (a, refl)

infixl 5 ◌>>=◌
abbrev pub ◌>>=◌ {ℓ κ} : {X : Type ℓ} {Y : Type κ} → Checked X → (X → Checked Y) → Checked Y
refused r >>= f = refused r
valid a >>= f = f a

-- `_read_json_body`: the header as `int` reads it (`none` for a `ValueError`), and the parse of so
-- many bytes (`none` for a `JSONDecodeError`)
unfoldable pub read_json_body : Option ℤ → (ℤ → Option Value) → Checked (Dict Value)
unfolding entries
read_json_body none loads = refused (bad_request "Invalid Content-Length")
read_json_body (some length) loads =
    if not (leb_ℤ (pos 0) length) || not (leb_ℤ length (pos max_body_bytes))
    then refused (bad_request "Request body too large or invalid")
    else if leb_ℤ length (pos 0)
    then valid []
    else (elim (loads length) [
      | none ↦ refused (bad_request "Invalid JSON")
      | some body ↦ elim body [
        | obj fields ↦ valid (entries fields)
        | _ ↦ refused (bad_request "Request body must be a JSON object")
      ]
    ])

-- `operation_id`: present, a text, and not empty
unfoldable pub check_id : Option Value → Checked String
check_id (some (text (String.◌∷◌ c s))) = valid (String.◌∷◌ c s)
check_id _ = refused (bad_request "'operation_id' is required and must be a string")

unfoldable pub check_state : Option Value → Checked (Dict Value)
unfolding entries
check_state (some (obj fields)) = valid (entries fields)
check_state _ = refused (bad_request "'intended_state' is required and must be an object")

-- `set(intended_state) - _INTENDED_STATE_FIELDS`
unfoldable pub unknown_fields : Dict Value → List String
unknown_fields [] = []
unknown_fields ((field, value) ∷ rest) =
    let later = unknown_fields rest in if contains field field_map then later else field ∷ later

abbrev pub check_known : (List String → String) → List String → Checked (Unit {0})
check_known listing [] = valid tt
check_known listing (f ∷ fs) =
    refused (bad_request (concat "Unrecognised fields in intended_state: " (listing (f ∷ fs))))

abbrev pub check_values : Option String → Checked (Unit {0})
check_values none = valid tt
check_values (some message) = refused (bad_request message)

-- A timeout: the default where it is missing, else an integer within the bounds. A `bool` is an
-- integer of Python, and is below both lower bounds.
unfoldable pub check_timeout : String → ℕ → ℕ → ℕ → Option Value → Checked ℕ
check_timeout message low high default none = valid default
check_timeout message low high default (some (int (pos n))) =
    if leb low n && leb n high then valid n else refused (bad_request message)
check_timeout message low high default (some _) = refused (bad_request message)

module _ (str : Value → String) (listing : List String → String) where
  -- The checks of `_handle_execute`, in their order.
  unfoldable pub check_execute : Dict Value → Checked QueuedOperation
  check_execute body = do
    oid ← check_id (lookup "operation_id" body)
    state ← check_state (lookup "intended_state" body)
    known ← check_known listing (unknown_fields state)
    values ← check_values (validate str listing state)
    health ←
        check_timeout "'health_timeout_seconds' must be an integer between 10 and 600" 10 600 300
          (lookup "health_timeout_seconds" body)
    restart ←
        check_timeout "'restart_timeout_seconds' must be an integer between 10 and 300" 10 300 60
          (lookup "restart_timeout_seconds" body)
    valid (record {
      operation_id = oid;
      intended_state = state;
      health_timeout = health;
      restart_timeout = restart;
    })

-- The keyword arguments of the update that records a full queue.
abbrev pub set_queue_full : ℕ → OperationRecord → OperationRecord
set_queue_full now r = record r {
  status = Status.done;
  outcome = some Outcome.error;
  failed_stage = none;
  detail = some "Operation rejected: queue at capacity";
  error_code = some ErrorCode.queue_full;
  completed_at = some now;
}

-- The end of `_handle_execute`: a new operation is queued, or run by a thread of its own.
unfoldable pub dispatch : Bool → ℕ → QueuedOperation → Server → Server × Response
dispatch written now item s = elim s.operation_queue [
  | none ↦ (record s { threads = s.threads ++ item ∷ [] }, accepted item.operation_id)
  | some queue ↦
      (let (queue', room) = enqueue item queue in
        if room then (record s { operation_queue = some queue' }, accepted item.operation_id) else (
          record s { store = update written item.operation_id (set_queue_full now) s.store },
          at_capacity,
        ))
]

unfoldable pub accept : Bool → ℕ → QueuedOperation → Server → Server × Response
accept written now item s = elim (get item.operation_id s.store) [
  | some rec ↦
      if is_running rec.status
      then (s, conflict item.operation_id)
      else (s, accepted item.operation_id)
  | none ↦
      (let (store', made) = create written item.operation_id s.store in
        elim made [
          | none ↦ (s, conflict item.operation_id)
          | some _ ↦ dispatch written now item (record s { store = store' })
        ])
]

-- `_handle_execute`
unfoldable pub handle_execute :
    (Value → String) → (List String → String) → Bool → ℕ → Dict Value → Server → Server × Response
handle_execute str listing written now body s = elim (check_execute str listing body) [
  | refused r ↦ (s, r)
  | valid item ↦ accept written now item s
]

-- `_handle_status`, after the eviction of what has expired
unfoldable pub handle_status : (String → Bool) → ℕ → String → Server → Server × Response
handle_status written now oid s =
    let store' = evict_expired written now s.store in
    let s' = record s { store = store' } in
    elim (get oid store') [
      | none ↦ (
        s',
        record {
          status = 404;
          body =
              ("error", text "not_found")
              ∷ ("operation_id", text oid)
              ∷ ("message", text "Unknown operation")
              ∷ [];
        },
      )
      | some rec ↦ (
        s',
        record {
          status = 200;
          body = if is_running rec.status then to_running_dict rec else to_done_dict rec;
        },
      )
    ]

-- `_handle_health`
unfoldable pub handle_health : Server → Response
handle_health s = record {
  status = 200;
  body = ("status", text "ok") ∷ ("version", text "0.1.0") ∷ elim s.operation_queue [
    | none ↦ []
    | some q ↦
        ("queue_depth", int (pos (queue_depth q))) ∷ ("worker_count", int (pos q.worker_count)) ∷ []
  ];
}

-- `_handle_bedrock_status`, with the answer of the status checker
abbrev pub handle_bedrock_status : Bool → Response
handle_bedrock_status running = record {
  status = 200;
  body = ("bedrock_running", bool running) ∷ [];
}

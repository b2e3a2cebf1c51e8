-- ===== src/Agent/Handler/Once.antt =====
-- http/handler.py: one id is executed at most once while its record is kept.
use mathlib.Core.Path.{subst}
use craftcontrol.Base.{
  ℕ, ◌≡◌, sym, All-append, All-mono, Bool, Option, none, some, List, [], ◌∷◌, ◌++◌, String, arith,
  All, ltb, length, str_eq, str_eq_refl, Option-cases, Bool-cases, inl, inr, ◌⊎◌,
}
use craftcontrol.Base.Dict.{Dict}
use craftcontrol.Base.Value.{Value}
use craftcontrol.Agent.Record.{OperationRecord}
use craftcontrol.Agent.Store.{Store, get, update}
use craftcontrol.Agent.Executor.Verdict.{get-update}
use craftcontrol.Agent.Executor.{Environment}
use craftcontrol.Agent.Queue.{QueuedOperation, OperationQueue, enqueue, work}
use craftcontrol.Agent.Queue.Drain.{KnownRecord, execute, execute-known, work-known}
use craftcontrol.Agent.Handler.{
  Server, accept, dispatch, set_queue_full, handle_execute, check_execute, Checked-cases,
}
use craftcontrol.Agent.Handler.Accept.{get-create, accept_free, accept_new, accept_known}

-- The records that an update leaves known.
KnownRecord-update :
    (w : Bool) (oid : String) (f : OperationRecord → OperationRecord) (s : Store) (k : String)
    → KnownRecord (get k s)
    → KnownRecord (get k (update w oid f s))
KnownRecord-update w oid f s k h = elim (Option-cases (get k s)) [
  | inl p ↦ absurd (rw p at h)
  | inr (r, p) ↦ elim (Bool-cases (str_eq oid k)) [
    | inl e ↦ rw (get-update w oid f s k) (rw (e, p) tt)
    | inr n ↦ rw (get-update w oid f s k) (rw n h)
  ]
]

KnownRecord-dispatch :
    (w : Bool) (now : ℕ) (item : QueuedOperation) (s : Server) (k : String)
    → KnownRecord (get k s.store)
    → KnownRecord (get k (dispatch w now item s).0.store)
unfolding dispatch enqueue
KnownRecord-dispatch w now item s k h = elim (Option-cases s.operation_queue) [
  | inl p ↦ rw (p, dispatch) h
  | inr (q, p) ↦ elim (Bool-cases (ltb (length q.items) q.maxsize)) [
    | inl room ↦ rw (p, dispatch) (rw (room, enqueue) h)
    | inr full ↦
        rw (p, dispatch)
          (rw (full, enqueue)
            (KnownRecord-update w item.operation_id (set_queue_full now) s.store k h))
  ]
]

KnownRecord-accept :
    (w : Bool) (now : ℕ) (item : QueuedOperation) (s : Server) (k : String)
    → KnownRecord (get k s.store)
    → KnownRecord (get k (accept w now item s).0.store)
KnownRecord-accept w now item s k h = elim (Option-cases (get item.operation_id s.store)) [
  | inr (r, p) ↦ rw (accept_known w now item s r p) h
  | inl p ↦ rw (accept_free w now item s p) (
      KnownRecord-dispatch w now item _ k (elim (Bool-cases (str_eq item.operation_id k)) [
        | inl e ↦ rw (get-create w item.operation_id s.store k p) (rw e tt)
        | inr n ↦ rw (get-create w item.operation_id s.store k p) (rw n h)
      ]))
]

-- After a valid request its id is in the store.
accept-KnownRecord :
    (w : Bool) (now : ℕ) (item : QueuedOperation) (s : Server)
    → KnownRecord (get item.operation_id (accept w now item s).0.store)
accept-KnownRecord w now item s = elim (Option-cases (get item.operation_id s.store)) [
  | inr (r, p) ↦ rw (accept_known w now item s r p) (rw p tt)
  | inl p ↦ rw (accept_free w now item s p) (
      KnownRecord-dispatch w now item _ item.operation_id (
        rw (get-create w item.operation_id s.store item.operation_id p)
          (rw (str_eq_refl item.operation_id) tt)))
]

-- What can come between two requests, but for the eviction of expired records: another valid request,
-- a round of a worker on the queue, and, where there is no queue, the run of a thread.
pub data Event : Type 0 where
  posted : (w : Bool) (now : ℕ) (item : QueuedOperation) → Event
  worked : Event
  ran : (item : QueuedOperation) → Event

module _ (str : Value → String) (env : String → Environment) where
  abbrev pub round : Server → Option OperationQueue → Server
  round s none = s
  round s (some q) =
      let (q', w) = work str env (q, record { store = s.store; effects = [] }) in
      record s { operation_queue = some q'; store = w.store }

  abbrev pub event : Event → Server → Server
  event (posted w now item) s = (accept w now item s).0
  event worked s = round s s.operation_queue
  event (ran item) s = record s {
    store = (execute str env item (record { store = s.store; effects = [] })).store;
  }

  unfoldable pub events : List Event → Server → Server
  events [] s = s
  events (x ∷ xs) s = events xs (event x s)

  KnownRecord-round :
      (s : Server) (o : Option OperationQueue) (k : String)
      → KnownRecord (get k s.store)
      → KnownRecord (get k (round s o).store)
  KnownRecord-round s none k h = h
  KnownRecord-round s (some q) k h = work-known str env q _ k h

  KnownRecord-events :
      (xs : List Event) (s : Server) (k : String)
      → KnownRecord (get k s.store)
      → KnownRecord (get k (events xs s).store)
  unfolding events
  KnownRecord-events [] s k h = h
  KnownRecord-events (posted w now item ∷ xs) s k h =
      KnownRecord-events xs (accept w now item s).0 k (KnownRecord-accept w now item s k h)
  KnownRecord-events (worked ∷ xs) s k h =
      KnownRecord-events xs (round s s.operation_queue) k
        (KnownRecord-round s s.operation_queue k h)
  KnownRecord-events (ran item ∷ xs) s k h =
      KnownRecord-events xs (event (ran item) s) k (execute-known str env item _ k h)

  -- After a valid request, and after any sequence of other valid requests, rounds of the workers and
  -- runs of threads in which no eviction of expired records comes, a valid request with the same id
  -- changes nothing at all: the store, the queue and the threads stay as they are, so no operation is
  -- queued or started twice. This holds after a 503 too, where the first request was not queued either.
  pub accept_once :
      (w w' : Bool) (now now' : ℕ) (item item' : QueuedOperation) (xs : List Event) (s : Server)
      → item'.operation_id ≡ item.operation_id
      → let s' = events xs (accept w now item s).0 in (accept w' now' item' s').0 ≡ s'
  accept_once w w' now now' item item' xs s e =
      let s' = events xs (accept w now item s).0 in
      elim (Option-cases (get item'.operation_id s'.store)) [
        | inr (r, p) ↦ rw (accept_known w' now' item' s' r p)
        | inl p ↦
            let h : KnownRecord (get item'.operation_id s'.store) =
              subst (λ k. KnownRecord (get k s'.store)) (sym e)
                (KnownRecord-events xs (accept w now item s).0 item.operation_id
                  (accept-KnownRecord w now item s)) in
            absurd (rw p at h)
      ]

-- Every queued operation has a record.
abbrev pub KnownItems : Store → List QueuedOperation → Type 0
KnownItems s = All (λ i. KnownRecord (get i.operation_id s))

abbrev pub QueueKnown : Server → Type 0
QueueKnown s = (q : OperationQueue) → s.operation_queue ≡ some q → KnownItems s.store q.items

KnownItems-accept :
    (w : Bool) (now : ℕ) (item : QueuedOperation) (s : Server) (items : List QueuedOperation)
    → KnownItems s.store items
    → KnownItems (accept w now item s).0.store items
KnownItems-accept w now item s items h =
    All-mono _ _ items (λ i k. KnownRecord-accept w now item s i.operation_id k) h

-- The items of the queue after a valid request: those before it, and perhaps the new one.
items-accept :
    (w : Bool) (now : ℕ) (item : QueuedOperation) (s : Server) (q q' : OperationQueue)
    → s.operation_queue ≡ some q
    → (accept w now item s).0.operation_queue ≡ some q'
    → (q'.items ≡ q.items) ⊎ (q'.items ≡ q.items ++ item ∷ [])
items-accept w now item s q q' c c' = elim (Option-cases (get item.operation_id s.store)) [
  | inr (r, p) ↦ inl (ground (arith, accept_known w now item s r p))
  | inl p ↦
      let e = (accept_new w now item s q p c).1 in
      elim (Bool-cases (ltb (length q.items) q.maxsize)) [
        | inl room ↦ inr (ground (arith, e))
        | inr full ↦ inl (ground (arith, e))
      ]
]

queue-accept-none :
    (w : Bool) (now : ℕ) (item : QueuedOperation) (s : Server)
    → s.operation_queue ≡ none
    → (accept w now item s).0.operation_queue ≡ none
unfolding dispatch
queue-accept-none w now item s c = elim (Option-cases (get item.operation_id s.store)) [
  | inr (r, p) ↦ rw (accept_known w now item s r p) c
  | inl p ↦ rw (accept_free w now item s p) (rw (c, dispatch) c)
]

QueueKnown-accept :
    (w : Bool) (now : ℕ) (item : QueuedOperation) (s : Server)
    → QueueKnown s
    → QueueKnown (accept w now item s).0
QueueKnown-accept w now item s h q' c' = elim (Option-cases s.operation_queue) [
  | inl c ↦ cc (queue-accept-none w now item s c)
  | inr (q, c) ↦
      let old = KnownItems-accept w now item s q.items (h q c) in
      elim (items-accept w now item s q q' c c') [
        | inl same ↦ rw same old
        | inr more ↦
            rw more (All-append _ q.items (item ∷ []) old (accept-KnownRecord w now item s, tt))
      ]
]

-- Whatever body is posted to `/v1/execute`, if every queued operation had a record before, every
-- queued operation has one afterwards.
pub handle_execute-QueueKnown :
    (str : Value → String) (listing : List String → String) (w : Bool) (now : ℕ) (body : Dict Value)
    (s : Server)
    → QueueKnown s
    → QueueKnown (handle_execute str listing w now body s).0
unfolding handle_execute
handle_execute-QueueKnown str listing w now body s h =
    elim (Checked-cases (check_execute str listing body)) [
      | inl (r, p) ↦ rw (p, handle_execute) h
      | inr (item, p) ↦ rw (p, handle_execute) (QueueKnown-accept w now item s h)
    ]

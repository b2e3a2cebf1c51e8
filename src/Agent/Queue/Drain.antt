-- ===== src/Agent/Queue/Drain.antt =====
-- runtime/queue_worker.py: what the workers make of the queue.
use mathlib.Core.Path.{subst}
use craftcontrol.Base.{
  ℕ, zero, suc, ◌≡◌, refl, ◌≤◌, true, Option, none, some, List, [], ◌∷◌, ◌++◌, String, arith,
  length, length-append, ltb→lt, All, Bool-cases, Option-cases, List-cases, inl, inr, str_eq,
  eq_iff, ltb, if◌then◌else◌,
}
use craftcontrol.Base.Value.{Value}
use craftcontrol.Agent.Record.{OperationRecord, Status}
use craftcontrol.Agent.Store.{get}
use craftcontrol.Agent.Executor.{Environment, World, run}
use craftcontrol.Agent.Executor.Verdict.{EndsAs, run-EndsAs, Ended}
use craftcontrol.Agent.Executor.Induction.{get-run_other}
use craftcontrol.Agent.Queue.{QueuedOperation, OperationQueue, enqueue, work, work_times}

-- The queue never holds more than its size.
abbrev pub IsBounded : OperationQueue → Type 0
IsBounded q = length q.items ≤ q.maxsize

abbrev pub DoneRecord : Option OperationRecord → Type 0
DoneRecord none = ⊥
DoneRecord (some r) = r.status ≡ Status.done

abbrev pub IsDone : World → String → Type 0
IsDone w k = DoneRecord (get k w.store)

abbrev pub KnownRecord : Option OperationRecord → Type 0
KnownRecord none = ⊥
KnownRecord (some r) = Unit

module _ (str : Value → String) (env : String → Environment) where
  abbrev pub execute : QueuedOperation → World → World
  execute i w =
      run str (env i.operation_id) i.operation_id i.intended_state i.health_timeout
        i.restart_timeout w

  EndsAs-done :
      (i : QueuedOperation) (failed : _) (ref : Option String) (o : Option OperationRecord)
      → Ended str
          (env i.operation_id)
          i.operation_id
          i.intended_state
          (EndsAs str (env i.operation_id) i.operation_id i.intended_state failed ref)
          o
      → DoneRecord o
  EndsAs-done i failed ref none h = h
  EndsAs-done i failed ref (some r) h = h.status

  execute-IsDone_self :
      (i : QueuedOperation) (w : World)
      → KnownRecord (get i.operation_id w.store)
      → IsDone (execute i w) i.operation_id
  execute-IsDone_self i w h = elim (Option-cases (get i.operation_id w.store)) [
    | inl p ↦ absurd (rw p at h)
    | inr (r, p) ↦ EndsAs-done i _ _ _ (
        run-EndsAs str (env i.operation_id) i.operation_id i.intended_state i.health_timeout
          i.restart_timeout w r p)
  ]

  DoneRecord-known : (o : Option OperationRecord) → DoneRecord o → KnownRecord o
  DoneRecord-known none h = h
  DoneRecord-known (some r) h = tt

  execute-keeps :
      (P : Option OperationRecord → Type 0) (i : QueuedOperation) (w : World) (k : String)
      → (str_eq i.operation_id k ≡ true → P (get k (execute i w).store))
      → P (get k w.store)
      → P (get k (execute i w).store)
  execute-keeps P i w k same h = elim (Bool-cases (str_eq i.operation_id k)) [
    | inl e ↦ same e
    | inr n ↦
        rw
          (get-run_other str (env i.operation_id) i.operation_id i.intended_state i.health_timeout
            i.restart_timeout w k n)
          h
  ]

  execute-IsDone :
      (i : QueuedOperation) (w : World) (k : String) → IsDone w k → IsDone (execute i w) k
  execute-IsDone i w k h =
      execute-keeps DoneRecord i w k
        (λ e.
          let p = (eq_iff i.operation_id k).0 e in
          subst (λ j. IsDone (execute i w) j) p
            (execute-IsDone_self i w (rw p (DoneRecord-known (get k w.store) h))))
        h

  pub execute-known :
      (i : QueuedOperation) (w : World) (k : String)
      → KnownRecord (get k w.store)
      → KnownRecord (get k (execute i w).store)
  execute-known i w k h =
      execute-keeps KnownRecord i w k
        (λ e.
          let p = (eq_iff i.operation_id k).0 e in
          DoneRecord-known _
            (subst (λ j. IsDone (execute i w) j) p (execute-IsDone_self i w (rw p h))))
        h

  pub work-known :
      (q : OperationQueue) (w : World) (k : String)
      → KnownRecord (get k w.store)
      → KnownRecord (get k (work str env (q, w)).1.store)
  unfolding work
  work-known q w k h = elim (List-cases q.items) [
    | inl p ↦ rw (p, work) h
    | inr (i, rest, p) ↦ rw (p, work) (execute-known i w k h)
  ]

  work-IsDone :
      (q : OperationQueue) (w : World) (k : String) → IsDone w k → IsDone (work str env (q, w)).1 k
  unfolding work
  work-IsDone q w k h = elim (List-cases q.items) [
    | inl p ↦ rw (p, work) h
    | inr (i, rest, p) ↦ rw (p, work) (execute-IsDone i w k h)
  ]

  work_times-IsDone :
      (n : ℕ) (q : OperationQueue) (w : World) (k : String)
      → IsDone w k
      → IsDone (work_times str env n (q, w)).1 k
  unfolding work_times
  work_times-IsDone zero q w k h = h
  work_times-IsDone (suc n) q w k h =
      let (q', w') = work str env (q, w) in work_times-IsDone n q' w' k (work-IsDone q w k h)

  AllKnown : List QueuedOperation → World → Type 0
  AllKnown items w = All (λ i. KnownRecord (get i.operation_id w.store)) items

  execute-AllKnown :
      (i : QueuedOperation) (w : World) (items : List QueuedOperation)
      → AllKnown items w
      → AllKnown items (execute i w)
  unfolding AllKnown
  execute-AllKnown i w [] h = tt
  execute-AllKnown i w (j ∷ items) h =
      (execute-known i w j.operation_id h.0, execute-AllKnown i w items h.1)

  drain_from :
      (items : List QueuedOperation) (maxsize workers : ℕ) (w : World)
      → AllKnown items w
      → let q : OperationQueue = record {
        items = items;
        maxsize = maxsize;
        worker_count = workers;
      } in
        ((work_times str env (length items) (q, w)).0.items ≡ [])
        × All (λ i. IsDone (work_times str env (length items) (q, w)).1 i.operation_id) items
  unfolding work_times work AllKnown
  drain_from [] maxsize workers w h = (refl, tt)
  drain_from (i ∷ items) maxsize workers w h =
      let (empty, rest) =
        drain_from items maxsize workers (execute i w) (execute-AllKnown i w items h.1) in
      (
        empty,
        (
          work_times-IsDone (length items)
              (record { items = items; maxsize = maxsize; worker_count = workers }) (execute i w)
              i.operation_id (execute-IsDone_self i w h.0),
          rest,
        ),
      )

  -- If every queued operation has a record, then as many worker rounds as there are items empty
  -- the queue and leave every one of those operations finished, whatever the ports do, whether
  -- they succeed, fail or raise.
  pub work_times-drain :
      (q : OperationQueue) (w : World)
      → All (λ i. KnownRecord (get i.operation_id w.store)) q.items
      → let (q', w') = work_times str env (length q.items) (q, w) in
        (q'.items ≡ []) × All (λ i. IsDone w' i.operation_id) q.items
  unfolding AllKnown
  work_times-drain q w h = drain_from q.items q.maxsize q.worker_count w h

-- `enqueue` accepts an item exactly when there is room, then puts it behind all others, and
-- changes nothing when it refuses; a queue within its bound stays within it.
pub enqueue_lem :
    (item : QueuedOperation) (q : OperationQueue)
    → IsBounded q
    → let (q', accepted) = enqueue item q in
      (accepted ≡ ltb (length q.items) q.maxsize)
      × (q'.items ≡ (if accepted then q.items ++ item ∷ [] else q.items))
      × IsBounded q'
unfolding enqueue
enqueue_lem item q b = elim (Bool-cases (ltb (length q.items) q.maxsize)) [
  | inl c ↦ rw c (refl, refl, omega (arith, length-append q.items (item ∷ []), ltb→lt _ _ c))
  | inr c ↦ rw c (refl, refl, b)
]

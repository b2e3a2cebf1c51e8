-- ===== src/Operation/Worker/Threads/Steps.antt =====
-- operations/service.py: what a request, a step of a thread and a reclaim leave of the rows and the copies.
use craftcontrol.Base.{
  Bool, ℕ, ◌≡◌, ◌⊎◌, str_eq_refl, refl, sym, ap, ◌∙◌, true, Option, none, some, String, arith,
  Bool-cases, Option-cases, inl, inr, str_eq, find, if◌then◌else◌,
}
use craftcontrol.Base.Dict.{Dict, lookup, insert, contains, lookup-insert_self}
use craftcontrol.Base.Value.{Value}
use craftcontrol.Operation.Lifecycle.{
  ServerOperation, OperationStage, StageRecord, ok, create, modify_stage, same_stage, is_terminal,
  fail_stage,
}
use craftcontrol.Operation.Lifecycle.Machine.{call, Result-cases}
use craftcontrol.Operation.Lifecycle.Trace.{identity-call}
use craftcontrol.Operation.Service.{
  Table, is_active, get_active, save, save_new, start_worker, update_stage, write_stage,
  fetch_and_update, retry_operation, retry_of, retryable,
}
use craftcontrol.Operation.Service.Single.{some_injective, call-is_active}
use craftcontrol.Operation.Worker.Threads.{
  Action, called, normalized, concluded, perform, ended, Process, Write, whole, stage_of, lost,
  write, enrolled, acted,
}
use craftcontrol.Operation.Worker.Threads.Copies.{
  IsBacked, row-IsBacked, copy-IsBacked, new-IsBacked,
}

abbrev pub Holds : Process → Type 0
Holds p = IsBacked p.service.server_id p.service.table p.copies

pub begin-Holds :
    (op : ServerOperation) (p : Process)
    → op.server_id ≡ p.service.server_id
    → Holds p
    → Holds (enrolled (start_worker (save_new op p.service)) p.copies)
unfolding save_new get_active save
begin-Holds op p v h = elim (Option-cases (get_active p.service.server_id p.service.table)) [
  | inr (a, q) ↦ rw (q, save_new) h
  | inl q ↦ rw (q, save_new) (new-IsBacked p.service.server_id p.service.table p.copies h op v q)
]

pub retry-Holds :
    (uuid : String) (now : ℕ) (id : String) (correlation : Option String) (p : Process)
    → Holds p
    → Holds (enrolled (retry_operation uuid now id correlation p.service) p.copies)
unfolding retry_operation create
retry-Holds uuid now id correlation p h =
    let s = p.service in
    elim (Option-cases (lookup id s.table)) [
      | inl q ↦ rw (q, retry_operation) h
      | inr (origin, q) ↦ elim (Bool-cases (str_eq origin.server_id s.server_id)) [
        | inr n ↦ rw (q, retry_operation) (rw (n, retry_operation) h)
        | inl y ↦ elim (Bool-cases (retryable origin.state)) [
          | inr n ↦ rw (q, retry_operation) (rw (y, retry_operation) (rw (n, retry_operation) h))
          | inl z ↦
              rw (q, retry_operation)
                (rw (y, retry_operation)
                  (rw (z, retry_operation)
                    (begin-Holds (retry_of uuid now s.server_id correlation origin id) p refl h)))
        ]
      ]
    ]

-- A copy that is active after a call was active before it.
perform-is_active :
    (server : String) (a : Action) (op : ServerOperation)
    → is_active server (perform a op) ≡ true
    → is_active server op ≡ true
unfolding perform
perform-is_active server (normalized changes) op y = y
perform-is_active server (concluded observation d) op y = ground (arith, y)
perform-is_active server (called c) op y = elim (Result-cases (call c op)) [
  | inl (e, p) ↦ rw p at y
  | inr (op', p) ↦ call-is_active server c op op' p (rw p at y)
]

perform-same :
    (a : Action) (op : ServerOperation)
    → ((perform a op).operation_id ≡ op.operation_id) × ((perform a op).server_id ≡ op.server_id)
unfolding perform
perform-same (called c) op =
    (ap (λ i. i.0) (identity-call c op), ap (λ i. i.1) (identity-call c op))
perform-same (normalized changes) op = (refl, refl)
perform-same (concluded observation d) op = (refl, refl)

-- The row that `update_stage` writes is as active as the copy, or as it was.
write_stage-is_active :
    (server : String) (op : ServerOperation) (s : OperationStage) (r : StageRecord)
    (old : ServerOperation)
    → op.server_id ≡ server
    → ((is_active server (write_stage op s r old) ≡ true)
        → (is_active server old ≡ true) ⊎ (is_active server op ≡ true))
      × (is_active server op ≡ true
          → is_active server old ≡ true
          → is_active server (write_stage op s r old) ≡ true)
write_stage-is_active server op s r old v =
    elim (Result-cases (modify_stage s (λ _. r) old.stages)) [
      | inl (e, p) ↦ rw (p, write_stage) (λ a. inl a, λ a b. b)
      | inr (st, p) ↦
          rw (p, write_stage)
            (
              λ a. inr (ground (arith, v, str_eq_refl server, a)),
              λ a b. ground (arith, v, str_eq_refl server, a, b),
            )
    ]

operation_id-write_stage :
    (op : ServerOperation) (s : OperationStage) (r : StageRecord) (old : ServerOperation)
    → (write_stage op s r old).operation_id ≡ old.operation_id
operation_id-write_stage op s r old = elim (Result-cases (modify_stage s (λ _. r) old.stages)) [
  | inl (e, p) ↦ rw (p, write_stage) refl
  | inr (st, p) ↦ rw (p, write_stage) refl
]

module _ (server : String) (t : Table) (cs : Dict ServerOperation) (h : IsBacked server t cs) where
  -- The copy of a thread is written, whole, in part, or not at all.
  written :
      (how : Write) (op : ServerOperation)
      → lookup op.operation_id cs ≡ some op
      → IsBacked server (write how op t) cs
  unfolding write save update_stage
  written whole op f =
      row-IsBacked server t cs h op.operation_id op refl (h.backed op.operation_id op f)
        (λ o g y. rw (some_injective (sym f ∙ g)) y)
  written lost op f = h
  written (stage_of s) op f = elim (Option-cases (find (λ r. same_stage r.stage s) op.stages)) [
    | inl p ↦ rw (p, write, update_stage) h
    | inr (r, p) ↦ elim (Option-cases (lookup op.operation_id t)) [
      | inl q ↦ rw (p, write, update_stage) (rw (q, update_stage) h)
      | inr (old, q) ↦
          let k = op.operation_id in
          let (down, up) = write_stage-is_active server op s r old (h.served k op f) in
          rw (p, write, update_stage)
            (rw (q, update_stage)
              (row-IsBacked server t cs h k (write_stage op s r old)
                (operation_id-write_stage op s r old ∙ h.keyed k old q)
                (λ y. elim (down y) [ inl was ↦ (old, q, was) | inr on ↦ h.backed k op f on ])
                (λ o g y.
                  let on : is_active server op ≡ true = rw (some_injective (sym g ∙ f)) at y in
                  let (b, e, z) = h.backed k op f on in
                  up on (rw (some_injective (sym e ∙ q)) at z))))
    ]
  ]

acted-IsBacked :
    (server : String) (t : Table) (cs : Dict ServerOperation) (a : Action) (how : Write)
    (id : String) (op : ServerOperation)
    → IsBacked server t cs
    → lookup id cs ≡ some op
    → let op' = perform a op in IsBacked server (write how op' t) (insert op'.operation_id op' cs)
acted-IsBacked server t cs a how id op h f =
    let op' = perform a op in
    let (same, served) = perform-same a op in
    let k : op'.operation_id ≡ id = same ∙ h.own id op f in
    let v : op'.server_id ≡ server = served ∙ h.served id op f in
    written server t (insert op'.operation_id op' cs)
      (copy-IsBacked server t cs h op'.operation_id op' refl v
        (λ y. rw k (h.backed id op f (perform-is_active server a op y))))
      how op' (lookup-insert_self op'.operation_id op' cs)

pub act-Holds :
    (id : String) (a : Action) (how : Write) (p : Process)
    → Holds p
    → Holds (acted a how (lookup id p.copies) p)
act-Holds id a how p h = elim (Option-cases (lookup id p.copies)) [
  | inl f ↦ rw f h
  | inr (op, f) ↦ rw f (acted-IsBacked p.service.server_id p.service.table p.copies a how id op h f)
]

-- A reclaim spares the operations that have a thread, and ends the others.
ended-terminal :
    (o : Dict Value) (d : Bool) (s : OperationStage) (reason : String) (t u v : ℕ)
    (op op' : ServerOperation)
    → ended o d (fail_stage s reason none t u v op) ≡ ok op'
    → (is_terminal op'.state ≡ true) × (op'.operation_id ≡ op.operation_id)
unfolding fail_stage perform
ended-terminal o d s reason t u v op op' h = (ground (arith, h), ground (arith, h))

pub not_active :
    (server : String) (op : ServerOperation)
    → is_terminal op.state ≡ true
    → is_active server op ≡ true
    → ⊥
not_active server op e a = ground (arith, e, a)

module _ (server : String) (t : Table) (cs : Dict ServerOperation) (h : IsBacked server t cs) where
  pub reclaim-IsBacked :
      (id : String) (s : OperationStage) (reason : String) (x u v : ℕ) (o : Dict Value) (d : Bool)
      → IsBacked server
          (if contains id cs
            then t
            else fetch_and_update id (λ op. ended o d (fail_stage s reason none x u v op)) t)
          cs
  unfolding fetch_and_update
  reclaim-IsBacked id s reason x u v o d = elim (Option-cases (lookup id cs)) [
    | inr (c, f) ↦ rw f h
    | inl f ↦ rw f (elim (Option-cases (lookup id t)) [
      | inl p ↦ rw (p, fetch_and_update) h
      | inr (op, p) ↦ elim (Result-cases (ended o d (fail_stage s reason none x u v op))) [
        | inl (e, q) ↦ rw (p, fetch_and_update) (rw (q, fetch_and_update) h)
        | inr (op', q) ↦
            let (over, same) = ended-terminal o d s reason x u v op op' q in
            rw (p, fetch_and_update)
              (rw (q, fetch_and_update)
                (row-IsBacked server t cs h id op' (same ∙ h.keyed id op p)
                  (λ y. absurd (not_active server op' over y)) (λ c g y. cc)))
      ]
    ])
  ]

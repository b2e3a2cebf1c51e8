-- ===== src/Operation/Worker/Reclaim/Frees.antt =====
-- operations/service.py: a reclaim touches only an operation that is active, silent and without a
-- thread, and frees the server of it.
use mathlib.Core.Path.{subst}
use craftcontrol.Base.{
  ℕ, ◌+◌, ◌*◌, ◌≤◌, ◌≡◌, ◌≢◌, refl, sym, ap, ◌∙◌, Bool, true, false, not, Option, none, some, [],
  ◌∷◌, String, arith, ◌⊎◌, inl, inr, Bool-cases, Option-cases, ltb, str_eq_refl, str_eq, eq_iff,
  ◌&&◌, ◌||◌,
}
use craftcontrol.Base.Dict.{Dict, insert, lookup, lookup-insert, IsDistinct, insert-IsDistinct}
use craftcontrol.Base.Value.{Value}
use craftcontrol.Operation.Lifecycle.{
  ServerOperation, OperationStage, active_stage, review, update_observation,
}
use craftcontrol.Operation.Lifecycle.Machine.{to_fail}
use craftcontrol.Operation.Lifecycle.Invariant.{IsWellFormed}
use craftcontrol.Operation.Service
use craftcontrol.Operation.Service.{Table, newest, is_active, get_active}
use craftcontrol.Operation.Service.Single.{IsSingle, some_injective, single_row}
use craftcontrol.Operation.Worker.State.{
  Environment, World, Outcome, done, raised, returned, Reply-cases, note, now, perform, save,
}
use craftcontrol.Operation.Worker.Observe.{
  fail_step, verify_configuration, reconcile_online, reconcile_failed_operation,
  reconcile_unless_review, is_online, observe_container, after_observation,
}
use craftcontrol.Operation.Worker.Stages.{stage_or_review}
use craftcontrol.Operation.Worker.Stages.Post.{AreWritten, call-demanded}
use craftcontrol.Operation.Worker.Stages.Steps.{
  IsFailed, call_fail, reconcile_unless_review-IsFailed,
}
use craftcontrol.Operation.Worker.Reclaim.{is_live, is_recent, reclaim_stalled}

newest-head :
    (p : ServerOperation → Bool) (j : String) (o : ServerOperation) (t : Table)
    (op : ServerOperation)
    → newest p ((j, o) ∷ t) ≡ some op
    → ((p o ≡ true) × (o ≡ op)) ⊎ (newest p t ≡ some op)
unfolding newest
newest-head p j o t op h = elim (Bool-cases (p o)) [
  | inr out ↦ inr (rw (out, newest) at h)
  | inl in_kind ↦ elim (Option-cases (newest p t)) [
    | inl empty ↦ inl (in_kind, some_injective (rw (in_kind, empty) at h))
    | inr (o', q) ↦ elim (Bool-cases (ltb o.created_at o'.created_at)) [
      | inl older ↦ inr (q ∙ (rw (in_kind, q, older) at h))
      | inr newer ↦ inl (in_kind, some_injective (rw (in_kind, q, newer) at h))
    ]
  ]
]

-- The newest row of a kind is the row of a key.
newest-lookup :
    (p : ServerOperation → Bool) (t : Table) (op : ServerOperation)
    → IsDistinct t
    → newest p t ≡ some op
    → (k : String) × (lookup k t ≡ some op) × (p op ≡ true)
unfolding newest lookup
newest-lookup p [] op d h = cc
newest-lookup p ((j, o) ∷ t) op d h = elim (newest-head p j o t op h) [
  | inl (in_kind, e) ↦ (j, rw (str_eq_refl j) (ap some e), rw e at in_kind)
  | inr q ↦
      let (k, found, in_kind) = newest-lookup p t op d.1 q in
      (k, ground (arith, found, d.0, eq_iff j k), in_kind)
]

-- Each row is well-formed and stands under its operation's id.
abbrev pub AreKept : Table → Type 0
AreKept t =
    (k : String) (op : ServerOperation)
    → lookup k t ≡ some op
    → (op.operation_id ≡ k) × IsWellFormed op

-- A table with no active row but one is freed by the end of that one.
insert_frees :
    (server k : String) (op op' : ServerOperation) (t : Table)
    → IsDistinct t
    → IsSingle server t
    → lookup k t ≡ some op
    → is_active server op ≡ true
    → is_active server op' ≡ false
    → get_active server (insert k op' t) ≡ none
unfolding get_active
insert_frees server k op op' t d single found active over =
    elim (Option-cases (newest (is_active server) (insert k op' t))) [
      | inl p ↦ p
      | inr (b, p) ↦
          let (j, f, z) =
            newest-lookup (is_active server) (insert k op' t) b (insert-IsDistinct k op' t d) p in
          elim (Bool-cases (str_eq k j)) [
            | inl same ↦
                let e = some_injective (rw (lookup-insert, same) at f) in ground (arith, over, z, e)
            | inr other ↦
                let e =
                  single_row server t single k j op b found (rw (lookup-insert, other) at f) active
                    z in
                ground (arith, other, e, eq_iff k j)
          ]
    ]

-- What a reconciliation leaves as it is: the table, and whose operation it is.
abbrev frame : World → Table × String
frame w = (w.table, w.operation.operation_id)

module _ (env : Environment) where
  frame-verify_configuration : (w : World) → frame (verify_configuration env w).1 ≡ frame w
  unfolding verify_configuration
  frame-verify_configuration w = elim (Reply-cases (env.read_properties w.reads)) [
    | inl (properties, p) ↦ rw p refl
    | inr (e, p) ↦ rw p refl
  ]

  frame-reconcile_online :
      (o : Outcome (Bool × Dict Value)) (w : World) → frame (reconcile_online env o w) ≡ frame w
  unfolding update_observation
  frame-reconcile_online returned w = refl
  frame-reconcile_online (raised e) w = refl
  frame-reconcile_online (done (true, evidence)) w = ground arith
  frame-reconcile_online (done (false, evidence)) w = ground arith

  frame-reconcile_failed_operation :
      (w : World) → frame (reconcile_failed_operation env w) ≡ frame w
  unfolding reconcile_failed_operation update_observation
  frame-reconcile_failed_operation w = elim (Bool-cases (is_online (observe_container env w))) [
    | inl up ↦
        let w' = note env (observe_container env w) (after_observation env w) in
        rw up (
          frame-reconcile_online (verify_configuration env w').0 (verify_configuration env w').1
          ∙ frame-verify_configuration w')
    | inr down ↦ rw down refl
  ]

  frame-reconcile_unless_review :
      (s : OperationStage) (w : World) → frame (reconcile_unless_review env s w) ≡ frame w
  frame-reconcile_unless_review review w = refl
  frame-reconcile_unless_review _ w = frame-reconcile_failed_operation w

  -- With a working table, the failure of an operation is one write, of the row of the operation.
  table-fail_step :
      (s : OperationStage) (error : String) (evidence : Option (Dict Value)) (w : World)
      → AreWritten env
      → IsWellFormed w.operation
      → let w' = (fail_step env s error evidence w).1 in
        (w'.table ≡ insert w.operation.operation_id w'.operation w.table) × IsFailed w'.operation
  unfolding fail_step perform save Service.save
  table-fail_step s error evidence w written good =
      let t = now env w in
      let (op, p, good', same) =
        call-demanded (to_fail s error evidence t t t) w.operation good refl in
      let w1 = record w { operation = op } in
      let kept = frame-reconcile_unless_review s w1 in
      let w2 = reconcile_unless_review env s w1 in
      rw (p, written w2.writes)
        (
          ap (λ f. insert f.1 w2.operation f.0)
              (kept ∙ ap (λ id. (w.table, id)) (ap (λ x. x.0) same)),
          reconcile_unless_review-IsFailed env s w1
              (good', call_fail s error evidence t w.operation p),
        )

  -- A reclaim, whoever asks for it, leaves the worker's world as it is, or an operation of the
  -- server was active in the table, had no live thread, and had been silent for the threshold.
  pub reclaim_stalled-changed :
      (server : String) (threshold : ℕ) (reason : String) (lock held readable : Bool) (w : World)
      → (reclaim_stalled env server threshold reason lock held readable w).1 ≢ w
      → (op : ServerOperation) × (get_active server w.table ≡ some op)
        × (is_live op w ≡ false)
        × (op.updated_at + threshold * 1_000_000 ≤ now env w)
  unfolding reclaim_stalled
  reclaim_stalled-changed server threshold reason lock held readable w changed =
      elim (Bool-cases (lock && held || not readable)) [
        | inl stop ↦ absurd (changed (rw stop refl))
        | inr free ↦ elim (Option-cases (get_active server w.table)) [
          | inl idle ↦ absurd (changed (rw (free, idle) refl))
          | inr (op, p) ↦ elim (Bool-cases (is_live op w || is_recent env threshold op w)) [
            | inl spared ↦ absurd (changed (rw (free, p, spared) refl))
            | inr dead ↦ (op, p, ground (arith, dead), ground (arith, dead))
          ]
        ]
      ]

  -- A reclaim ends the operation that blocks a server: when the writes reach SQLite, the lock is free
  -- and the table can be read, the table has distinct ids and well-formed operations, of which at most
  -- one is active for the server, and that one has no live thread and has been silent for the
  -- threshold, no operation of the server is active afterwards, so a new one is not refused.
  pub reclaim_stalled-frees :
      (server : String) (threshold : ℕ) (reason : String) (lock : Bool) (w : World)
      (op : ServerOperation)
      → AreWritten env
      → IsDistinct w.table
      → IsSingle server w.table
      → AreKept w.table
      → get_active server w.table ≡ some op
      → is_live op w ≡ false
      → op.updated_at + threshold * 1_000_000 ≤ now env w
      → get_active server (reclaim_stalled env server threshold reason lock false true w).1.table
        ≡ none
  unfolding reclaim_stalled get_active
  reclaim_stalled-frees server threshold reason lock w op written distinct single kept active dead
        old =
      let free : lock && false || not true ≡ false = ground arith in
      let silent : is_recent env threshold op w ≡ false = ground arith in
      let (k, found, p) = newest-lookup (is_active server) w.table op distinct active in
      let (keyed, good) = kept k op found in
      let s = stage_or_review (active_stage op) in
      let (written_row, over) =
        table-fail_step s reason none (record w { operation = op }) written good in
      rw (free, active, dead, silent, written_row)
        (insert_frees server op.operation_id op _ w.table distinct single
          (subst (λ i. lookup i w.table ≡ some op) (sym keyed) found) p (ground (arith, over.1)))

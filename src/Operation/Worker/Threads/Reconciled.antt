-- ===== src/Operation/Worker/Threads/Reconciled.antt =====
-- operations/service.py: what a reconciliation leaves of the rows.
use craftcontrol.Base.{
  ◌≡◌, ◌⊎◌, refl, sym, ◌∙◌, Bool, true, false, ◌&&◌, some, String, arith, Bool-cases, Option-cases,
  inl, inr,
}
use craftcontrol.Base.Dict.{Dict, lookup}
use craftcontrol.Base.Value.{Value}
use craftcontrol.Operation.Lifecycle.{ServerOperation, is_terminal, update_observation}
use craftcontrol.Operation.Service.{is_active, save}
use craftcontrol.Operation.Service.Single.{some_injective}
use craftcontrol.Operation.Worker.State.{
  Environment, World, Outcome, done, raised, returned, Reply-cases, note,
}
use craftcontrol.Operation.Worker.Observe.{is_online, is_nil, verify_configuration}
use craftcontrol.Operation.Worker.Stages.{unverifiable}
use craftcontrol.Operation.Worker.Stages.Steps.{operation-verify_configuration}
use craftcontrol.Operation.Worker.Reconcile.{
  reconcile_row, judge, has_verifiable, is_eligible, store_reconciled, settle_reconciled,
  apply_reconciliation,
}
use craftcontrol.Operation.Worker.Threads.Copies.{IsBacked, row-IsBacked}
use craftcontrol.Operation.Worker.Threads.Steps.{not_active}

-- What a reconciliation leaves of a failed or divergent operation: an operation with its id that is in
-- a terminal state.
abbrev IsOver : ServerOperation → ServerOperation → Type 0
IsOver old op = (is_terminal op.state ≡ true) × (op.operation_id ≡ old.operation_id)

module _ (env : Environment) where
  judge-IsOver :
      (old : ServerOperation) (o : Outcome (Bool × Dict Value)) (w : World)
      → IsOver old w.operation
      → IsOver old (judge env o w).operation
  unfolding update_observation
  judge-IsOver old returned w h = h
  judge-IsOver old (raised e) w h = ground (arith, h)
  judge-IsOver old (done (verified, evidence)) w h = ground (arith, h)

  reconcile_row-IsOver :
      (observation : Dict Value) (w : World)
      → is_terminal w.operation.state ≡ true
      → IsOver w.operation (reconcile_row env observation w).operation
  unfolding update_observation
  reconcile_row-IsOver observation w h =
      let w' = note env observation w in
      elim (Bool-cases (is_nil (unverifiable w.operation.requested_changes))) [
        | inr some_left ↦ rw some_left (ground (arith, h))
        | inl verifiable ↦
            elim (Bool-cases
              (is_online observation && has_verifiable w.operation.requested_changes)) [
                | inl judged ↦
                    rw (verifiable, judged)
                      (judge-IsOver w.operation (verify_configuration env w').0
                        (verify_configuration env w').1
                        (rw (operation-verify_configuration env w') (ground (arith, h))))
                | inr not_judged ↦ rw (verifiable, not_judged) (ground (arith, h))
              ]
      ]

  table-verify_configuration : (w : World) → (verify_configuration env w).1.table ≡ w.table
  unfolding verify_configuration
  table-verify_configuration w = elim (Reply-cases (env.read_properties w.reads)) [
    | inl (properties, p) ↦ rw p refl
    | inr (e, p) ↦ rw p refl
  ]

  table-judge : (o : Outcome (Bool × Dict Value)) (w : World) → (judge env o w).table ≡ w.table
  table-judge returned w = refl
  table-judge (raised e) w = refl
  table-judge (done (verified, evidence)) w = ground arith

  table-reconcile_row :
      (observation : Dict Value) (w : World) → (reconcile_row env observation w).table ≡ w.table
  table-reconcile_row observation w =
      let w' = note env observation w in
      ground (
        arith,
        table-judge (verify_configuration env w').0 (verify_configuration env w').1,
        table-verify_configuration w',
      )

  module _ (server : String) (cs : Dict ServerOperation) (w : World)
      (h : IsBacked server w.table cs) where
    stored-IsBacked :
        (op : ServerOperation) (w' : World)
        → lookup op.operation_id w.table ≡ some op
        → w'.table ≡ w.table
        → w'.operation.operation_id ≡ op.operation_id
        → (w'.operation ≡ op)
          ⊎ ((is_active server op ≡ false) × (is_terminal w'.operation.state ≡ true))
        → IsBacked server (store_reconciled env w').1.table cs
    unfolding save
    stored-IsBacked op w' f e k how = elim (Reply-cases (env.write w'.writes)) [
      | inr (x, p) ↦ rw (p, settle_reconciled) (rw e h)
      | inl (u, p) ↦
          rw (p, settle_reconciled)
            (rw e (
              row-IsBacked server w.table cs h w'.operation.operation_id w'.operation refl
                (λ y. elim how [
                  | inl same ↦ (op, rw k f, rw same at y)
                  | inr (off, over) ↦ absurd (not_active server w'.operation over y)
                ])
                (λ o g y.
                  let (b, q, z) = h.backed w'.operation.operation_id o g y in
                  let on : is_active server op ≡ true =
                    rw (some_injective (sym (rw k at q) ∙ f)) at z in
                  elim how [ inl same ↦ rw same on | inr (off, over) ↦ cc ])))
    ]

    pub reconcile-IsBacked :
        (id : String) (observation : Dict Value)
        → IsBacked server (apply_reconciliation env server id observation w).1.table cs
    reconcile-IsBacked id observation = elim (Option-cases (lookup id w.table)) [
      | inl p ↦ rw (p, apply_reconciliation) h
      | inr (op, p) ↦
          let w0 = record w { operation = op } in
          let f = rw (sym (h.keyed id op p)) at p in
          elim (Bool-cases (is_eligible server op)) [
            | inr n ↦
                rw (p, apply_reconciliation)
                  (rw (n, apply_reconciliation) (stored-IsBacked op w0 f refl refl (inl refl)))
            | inl y ↦
                let over = eligible-terminal op y in
                let after = reconcile_row-IsOver observation w0 over in
                rw (p, apply_reconciliation)
                  (rw (y, apply_reconciliation)
                    (stored-IsBacked op (reconcile_row env observation w0) f
                      (table-reconcile_row observation w0) after.1
                      (inr (ground (arith, over), after.0))))
          ]
    ]
      where
        eligible-terminal :
            (o : ServerOperation) → is_eligible server o ≡ true → is_terminal o.state ≡ true
        eligible-terminal o e = ground (arith, e)

-- ===== src/Operation/Worker/Reconcile/Answers.antt =====
-- operations/service.py: what a reconciliation at an operator's request answers.
use mathlib.Core.Path.{subst}
use craftcontrol.Base.{
  ◌≡◌, sym, ap, ◌∙◌, true, some, String, arith, ◌⊎◌, inl, inr, Bool-cases, Option-cases,
}
use craftcontrol.Base.Dict.{Dict, lookup}
use craftcontrol.Base.Value.{Value}
use craftcontrol.Operation.Lifecycle.{ServerOperation, OperationState}
use craftcontrol.Operation.Lifecycle.Invariant.{is_failure}
use craftcontrol.Operation.Service.{Table}
use craftcontrol.Operation.Worker.State.{Environment, Reply-cases, World, done}
use craftcontrol.Operation.Worker.Observe.{observe_container, after_observation}
use craftcontrol.Operation.Worker.Reconcile.{
  is_eligible, reconcile_row, store_reconciled, settle_reconciled, apply_reconciliation,
  request_reconciliation,
}
use craftcontrol.Operation.Worker.Reconcile.Keeps.{
  IsSeen, reconcile_row-confirmed, changes-reconcile_row,
}

done_injective : {a b : ServerOperation} → done (some a) ≡ done (some b) → a ≡ b
done_injective h = cc

eligible-is_failure :
    (server : String) (op : ServerOperation)
    → is_eligible server op ≡ true
    → is_failure op.state ≡ true
eligible-is_failure server op h = ground (arith, h)

module _ (env : Environment) where
  store_reconciled-operation :
      (w : World) (op : ServerOperation)
      → (store_reconciled env w).0 ≡ done (some op)
      → w.operation ≡ op
  store_reconciled-operation w op h = elim (Reply-cases (env.write w.writes)) [
    | inl (u, p) ↦ done_injective (rw (p, settle_reconciled) at h)
    | inr (e, p) ↦ ground (arith, rw (p, settle_reconciled) at h)
  ]

  row-confirmed :
      (server : String) (observation : Dict Value) (w : World) (op : ServerOperation)
      → is_eligible server w.operation ≡ true
      → (store_reconciled env (reconcile_row env observation w)).0 ≡ done (some op)
      → op.state ≡ OperationState.confirmed
      → IsSeen env op.requested_changes
  row-confirmed server observation w op eligible h confirmed =
      let e = store_reconciled-operation (reconcile_row env observation w) op h in
      let seen =
        reconcile_row-confirmed env observation w (eligible-is_failure server w.operation eligible)
          (ap (λ o. o.state) e ∙ confirmed) in
      subst (IsSeen env)
        (sym (changes-reconcile_row env observation w) ∙ ap (λ o. o.requested_changes) e) seen

  applied-confirmed :
      (server id : String) (observation : Dict Value) (w : World) (op : ServerOperation)
      → (apply_reconciliation env server id observation w).0 ≡ done (some op)
      → op.state ≡ OperationState.confirmed
      → (lookup id w.table ≡ some op) ⊎ IsSeen env op.requested_changes
  applied-confirmed server id observation w op h confirmed =
      elim (Option-cases (lookup id w.table)) [
        | inl p ↦ ground (arith, rw (p, apply_reconciliation) at h)
        | inr (row, p) ↦ elim (Bool-cases (is_eligible server row)) [
          | inr spared ↦ inl (
              p
              ∙ ap some (
                  store_reconciled-operation (record w { operation = row }) op
                    (rw (spared, apply_reconciliation) at (rw (p, apply_reconciliation) at h))))
          | inl eligible ↦ inr (
              row-confirmed server observation (record w { operation = row }) op eligible
                (rw (eligible, apply_reconciliation) at (rw (p, apply_reconciliation) at h))
                confirmed)
        ]
      ]

  -- If a reconciliation answers with an operation that is confirmed, that operation stood so in the
  -- table before, or after what other threads wrote during the observation; or each of its changes
  -- has a property, some change has, one of the reads of server.properties differed from none of
  -- them, and one of the observations found the server online.
  pub request_reconciliation-confirmed :
      (server id : String) (meanwhile : Table → Table) (w : World) (op : ServerOperation)
      → (request_reconciliation env server id meanwhile w).0 ≡ done (some op)
      → op.state ≡ OperationState.confirmed
      → (lookup id w.table ≡ some op)
        ⊎ ((lookup id (meanwhile w.table) ≡ some op) ⊎ IsSeen env op.requested_changes)
  unfolding request_reconciliation
  request_reconciliation-confirmed server id meanwhile w op h confirmed =
      elim (Option-cases (lookup id w.table)) [
        | inl p ↦ ground (arith, rw (p, request_reconciliation) at h)
        | inr (probe, p) ↦ elim (Bool-cases (is_eligible server probe)) [
          | inr spared ↦ inl (
              p
              ∙ ap some (
                  done_injective
                    (rw (spared, request_reconciliation) at (rw (p, request_reconciliation) at h))))
          | inl eligible ↦ inr (
              applied-confirmed server id (observe_container env w)
                (record (after_observation env w) { table = meanwhile w.table }) op
                (rw (eligible, request_reconciliation) at (rw (p, request_reconciliation) at h))
                confirmed)
        ]
      ]

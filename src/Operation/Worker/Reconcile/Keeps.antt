-- ===== src/Operation/Worker/Reconcile/Keeps.antt =====
-- operations/service.py: what a reconciliation leaves of the operation.
use craftcontrol.Base.{
  ℕ, ◌+◌, ◌≡◌, refl, sym, ap, ◌∙◌, Bool, true, false, String, arith, inl, inr, Bool-cases, ◌&&◌,
}
use mathlib.Core.Path.{subst}
use craftcontrol.Base.Dict.{Dict}
use craftcontrol.Base.Value.{Value}
use craftcontrol.Operation.Lifecycle.{OperationState, update_observation}
use craftcontrol.Operation.Lifecycle.Invariant.{IsWellFormed, is_failure}
use craftcontrol.Operation.Worker.State.{
  Environment, answer, Reply-cases, World, Outcome, done, raised, returned, note, Status,
}
use craftcontrol.Operation.Worker.Observe.{
  is_online, is_nil, verify_configuration, differences, expected_settings, evidence_of,
}
use craftcontrol.Operation.Worker.Stages.{unverifiable}
use craftcontrol.Operation.Worker.Stages.Steps.{IsFailed, operation-verify_configuration}
use craftcontrol.Operation.Worker.Stages.Verify.{online-evidence_of}
use craftcontrol.Operation.Worker.Reconcile.{reconcile_row, judge, has_verifiable}

module _ (env : Environment) where
  -- One of the reads of server.properties differed from no change that has a property, and one of the
  -- observations found the server online.
  pub record IsMatched (changes : Dict Value) : Type 0 where
    pub reading : ℕ
    pub properties : Dict String
    pub read : env.read_properties reading ≡ answer properties
    pub matched : is_nil (differences properties (expected_settings changes)) ≡ true
    pub observation : ℕ
    pub status : Status
    pub seen : env.status observation ≡ answer status
    pub online : status.online ≡ true

  judge-IsWellFormed :
      (o : Outcome (Bool × Dict Value)) (w : World)
      → IsFailed w.operation
      → IsWellFormed (judge env o w).operation
  unfolding update_observation
  judge-IsWellFormed returned w h = h.0
  judge-IsWellFormed (raised e) w h = ground (arith, h)
  judge-IsWellFormed (done (verified, evidence)) w h = ground (arith, h)

  judge-confirmed :
      (properties : Dict String) (evidence : Dict Value) (verified : Bool) (w : World)
      → (judge env (done (verified, evidence)) w).operation.state ≡ OperationState.confirmed
      → (verified ≡ true) × (is_online evidence ≡ true)
  judge-confirmed properties evidence true w h = ground (arith, h)
  judge-confirmed properties evidence false w h = ground (arith, h)

  verify_configuration-IsMatched :
      (w : World)
      → is_failure w.operation.state ≡ true
      → (judge env (verify_configuration env w).0 (verify_configuration env w).1).operation.state
        ≡ OperationState.confirmed
      → IsMatched w.operation.requested_changes
  unfolding verify_configuration
  verify_configuration-IsMatched w failure h = elim (Reply-cases (env.read_properties w.reads)) [
    | inr (e, p) ↦ ground (arith, rw (p, judge) at h)
    | inl (properties, p) ↦
        let w' = record w { reads = w.reads + 1 } in
        let expected = expected_settings w.operation.requested_changes in
        let (matched, online) =
          judge-confirmed properties (evidence_of env w' properties expected) _ _
            (rw (p, judge) at h) in
        let (status, seen, up) = online-evidence_of env w' properties expected online in
        record {
          reading = w.reads;
          properties = properties;
          read = p;
          matched = matched;
          observation = w.observed;
          status = status;
          seen = seen;
          online = up;
        }
  ]

  -- A reconciliation of a failed or divergent operation keeps it well-formed, in whichever of the
  -- verdicts it ends.
  pub reconcile_row-IsWellFormed :
      (observation : Dict Value) (w : World)
      → IsFailed w.operation
      → IsWellFormed (reconcile_row env observation w).operation
  unfolding update_observation
  reconcile_row-IsWellFormed observation w h =
      let w' = note env observation w in
      elim (Bool-cases (is_nil (unverifiable w.operation.requested_changes))) [
        | inr some_left ↦ rw some_left (ground (arith, h))
        | inl verifiable ↦
            elim (Bool-cases
              (is_online observation && has_verifiable w.operation.requested_changes)) [
                | inl judged ↦
                    rw (verifiable, judged)
                      (judge-IsWellFormed (verify_configuration env w').0
                        (verify_configuration env w').1
                        (subst IsFailed (sym (operation-verify_configuration env w'))
                          (ground (arith, h), h.1)))
                | inr not_judged ↦ rw (verifiable, not_judged) (ground (arith, h))
              ]
      ]

  -- What a reconciliation has seen when it confirms: each of the changes has a property, some change
  -- has, and the reading of the server matched them.
  abbrev pub IsSeen : Dict Value → Type 0
  IsSeen changes =
      (is_nil (unverifiable changes) ≡ true) × (has_verifiable changes ≡ true) × IsMatched changes

  pub reconcile_row-confirmed :
      (observation : Dict Value) (w : World)
      → is_failure w.operation.state ≡ true
      → (reconcile_row env observation w).operation.state ≡ OperationState.confirmed
      → IsSeen w.operation.requested_changes
  unfolding update_observation
  reconcile_row-confirmed observation w failure h =
      let w' = note env observation w in
      elim (Bool-cases (is_nil (unverifiable w.operation.requested_changes))) [
        | inr some_left ↦ ground (arith, rw some_left at h)
        | inl verifiable ↦
            elim (Bool-cases
              (is_online observation && has_verifiable w.operation.requested_changes)) [
                | inl judged ↦ (
                  verifiable,
                  ground (arith, judged),
                  verify_configuration-IsMatched w' failure (rw (verifiable, judged) at h),
                )
                | inr not_judged ↦ ground (arith, rw (verifiable, not_judged) at h)
              ]
      ]

  changes-judge :
      (o : Outcome (Bool × Dict Value)) (w : World)
      → (judge env o w).operation.requested_changes ≡ w.operation.requested_changes
  unfolding update_observation
  changes-judge returned w = refl
  changes-judge (raised e) w = refl
  changes-judge (done (verified, evidence)) w = ground arith

  pub changes-reconcile_row :
      (observation : Dict Value) (w : World)
      → (reconcile_row env observation w).operation.requested_changes
        ≡ w.operation.requested_changes
  unfolding update_observation
  changes-reconcile_row observation w =
      let w' = note env observation w in
      elim (Bool-cases (is_nil (unverifiable w.operation.requested_changes))) [
        | inr some_left ↦ rw some_left refl
        | inl verifiable ↦
            elim (Bool-cases
              (is_online observation && has_verifiable w.operation.requested_changes)) [
                | inl judged ↦
                    rw (verifiable, judged)
                      (changes-judge (verify_configuration env w').0 (verify_configuration env w').1
                        ∙ ap (λ op. op.requested_changes) (operation-verify_configuration env w'))
                | inr not_judged ↦ rw (verifiable, not_judged) (ground arith)
              ]
      ]

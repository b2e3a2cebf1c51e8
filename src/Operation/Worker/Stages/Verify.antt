-- ===== src/Operation/Worker/Stages/Verify.antt =====
-- operations/service.py: the stages VERIFY and CONFIRM.
use craftcontrol.Base.{
  ℕ, ◌+◌, ◌≡◌, refl, ap, Bool, true, Option, none, some, [], ◌∷◌, String, arith, inl, inr,
  Bool-cases, str_eq→eq,
}
use craftcontrol.Base.Dict.{Dict, lookup}
use craftcontrol.Base.Value.{Value, text, time}
use craftcontrol.Operation.Lifecycle.{
  ServerOperation, OperationState, ok, verify, confirm_stage, confirm, diverge, modify_stage,
  set_completed, update_observation,
}
use craftcontrol.Operation.Lifecycle.Machine.{call, Result-cases}
use craftcontrol.Operation.Worker.State.{
  Environment, answer, Reply-cases, Status, World, Outcome, done, raised, returned, leave, note,
}
use craftcontrol.Operation.Worker.Observe.{
  observe_container, after_observation, is_online, is_nil, same_value, expected_settings,
  differences, evidence_of, verify_configuration, begin_step,
}
use craftcontrol.Operation.Worker.Stages.{
  finish, divergence, confirmation, settle_verify, diverge_out, unread, verify_stage, confirm_step,
}
use craftcontrol.Operation.Worker.Stages.Post.{
  IsReviewed, AreMet, Active, Triple, Post, IsFinal, IsVerified, sequence,
}
use craftcontrol.Operation.Worker.Stages.Steps.{
  fail_out-Post, begin_step-Active, complete_step-Active,
}
use craftcontrol.Operation.Worker.Stages.Later.{note-Active, finish-IsFinal}

-- A property without a difference has the text that is expected.
same_value-text : (o : Option String) (s : String) → same_value o (text s) ≡ true → o ≡ some s
same_value-text none s h = cc
same_value-text (some t) s h = ap some (str_eq→eq t s h)

differences-AreMet :
    (properties : Dict String) (d : Dict Value)
    → IsReviewed d
    → is_nil (differences properties (expected_settings d)) ≡ true
    → AreMet properties d
unfolding differences expected_settings
differences-AreMet properties [] h e = tt
differences-AreMet properties ((key, v) ∷ d) ((name, s, named, is_text), h) e =
    elim (Bool-cases (same_value (lookup name properties) v)) [
      | inl same ↦ (
        (name, s, named, is_text, same_value-text (lookup name properties) s (rw is_text at same)),
        differences-AreMet properties d h (rw (same, is_nil) at (rw (named, differences) at e)),
      )
      | inr other ↦ ground (arith, rw (other, is_nil) at (rw (named, differences) at e))
    ]

call-divergence :
    (evidence : Dict Value) (t : ℕ) (op : ServerOperation) {op' : ServerOperation}
    → call (divergence evidence t) op ≡ ok op'
    → op'.state ≡ OperationState.divergent
unfolding call diverge
call-divergence evidence t op p =
    elim (Result-cases (modify_stage verify (set_completed (some evidence) t) op.stages)) [
      | inl (e, q) ↦ ground (arith, p, q)
      | inr (stages, q) ↦ ground (arith, p, q)
    ]

call-confirmation :
    (t : ℕ) (op : ServerOperation) {op' : ServerOperation}
    → call (confirmation t) op ≡ ok op'
    → op'.state ≡ OperationState.confirmed
unfolding call confirm
call-confirmation t op p =
    let evidence : Dict Value = ("confirmed_at", time t) ∷ ("last_confirmed_at", time t) ∷ [] in
    elim (Result-cases (modify_stage confirm_stage (set_completed (some evidence) t) op.stages)) [
      | inl (e, q) ↦ ground (arith, p, q)
      | inr (stages, q) ↦ ground (arith, p, q)
    ]

module _ (env : Environment) where
  -- The evidence says that the server is online when the observation says so.
  pub online-evidence_of :
      (w : World) (properties : Dict String) (expected : Dict Value)
      → is_online (evidence_of env w properties expected) ≡ true
      → (status : Status) × (env.status w.observed ≡ answer status) × (status.online ≡ true)
  unfolding is_online observe_container lookup
  online-evidence_of w properties expected h = elim (Reply-cases (env.status w.observed)) [
    | inl (status, p) ↦ (status, p, rw (p, is_online) at h)
    | inr (e, p) ↦ ground (arith, rw (p, is_online) at h)
  ]

  -- What a verification leaves: a match with an online server verifies the changes.
  abbrev PostVerify : Outcome (Bool × Dict Value) → World → Type 0
  PostVerify (raised e) w = Active IsReviewed w
  PostVerify returned w = IsFinal env w
  PostVerify (done (verified, evidence)) w =
      Active IsReviewed w
      × (verified ≡ true → is_online evidence ≡ true → IsVerified env w.operation.requested_changes)

  verify_configuration-PostVerify :
      (w : World)
      → Active IsReviewed w
      → PostVerify (verify_configuration env w).0 (verify_configuration env w).1
  unfolding verify_configuration
  verify_configuration-PostVerify w a = elim (Reply-cases (env.read_properties w.reads)) [
    | inl (properties, p) ↦ rw p (
      a,
      λ matched online.
          let w' = record w { reads = w.reads + 1 } in
          let changes = w.operation.requested_changes in
          let (status, seen, up) =
            online-evidence_of w' properties (expected_settings changes) online in
          record {
            reading = w.reads;
            properties = properties;
            read = p;
            met = differences-AreMet properties changes a.changes matched;
            observation = w.observed;
            status = status;
            seen = seen;
            online = up;
          },
    )
    | inr (e, p) ↦ rw p a
  ]

  diverge_out-Post :
      (Q : Unit {0} → World → Type 0) (evidence : Dict Value)
      → Triple env (Active IsReviewed) (diverge_out env evidence) Q
  diverge_out-Post Q evidence =
      sequence env (λ _. IsFinal env) Q (finish env (divergence evidence) "operation.divergent")
        (λ _. leave)
        (finish-IsFinal env (divergence evidence) "operation.divergent" (λ t. refl)
          (λ t op op' p r.
            let e = call-divergence evidence t op p in
            (ground (arith, e), λ h. ground (arith, h, e))))
        (λ _ w h. h)

  settle_verify-Active :
      (o : Outcome (Bool × Dict Value)) (w : World)
      → PostVerify o w
      → Post env (λ _. Active (IsVerified env)) (settle_verify env o w).0 (settle_verify env o w).1
  unfolding update_observation
  settle_verify-Active (raised e) w a =
      let a' = note-Active env (unread env e w) (after_observation env w) a in
      fail_out-Post env (λ _. Active (IsVerified env)) verify _ _ _ a'.well_formed
  settle_verify-Active returned w h = h
  settle_verify-Active (done (verified, evidence)) w (a, worthy) =
      let a' = note-Active env evidence w a in
      elim (Bool-cases (is_online evidence)) [
        | inr down ↦
            rw down (fail_out-Post env (λ _. Active (IsVerified env)) verify _ _ _ a'.well_formed)
        | inl up ↦ elim (Bool-cases verified) [
          | inl good ↦
              rw (up, good)
                (complete_step-Active env verify (some evidence) (note env evidence w) record {
                  well_formed = a'.well_formed;
                  running = a'.running;
                  changes = worthy good up;
                })
          | inr bad ↦ rw (up, bad) (diverge_out-Post (λ _. Active (IsVerified env)) evidence _ a')
        ]
      ]

  pub verify_stage-Active :
      Triple env (Active IsReviewed) (verify_stage env) (λ _. Active (IsVerified env))
  unfolding verify_stage
  verify_stage-Active =
      sequence env (λ _. Active IsReviewed) (λ _. Active (IsVerified env)) (begin_step env verify)
        (λ _ w. settle_verify env (verify_configuration env w).0 (verify_configuration env w).1)
        (begin_step-Active env verify)
        (λ _ w a. settle_verify-Active _ _ (verify_configuration-PostVerify w a))

  pub confirm_step-IsFinal :
      Triple env (Active (IsVerified env)) (confirm_step env) (λ _. IsFinal env)
  unfolding confirm_step
  confirm_step-IsFinal =
      sequence env (λ _. Active (IsVerified env)) (λ _. IsFinal env) (begin_step env confirm_stage)
        (λ _. finish env confirmation "operation.confirmed") (begin_step-Active env confirm_stage)
        (λ _.
          finish-IsFinal env confirmation "operation.confirmed" (λ t. refl)
            (λ t op op' p verified.
              let e = call-confirmation t op p in (ground (arith, e), λ h. verified)))

-- ===== src/Operation/Service/Stage.antt =====
-- operations/repository.py: `update_stage` after a method of the lifecycle.
use mathlib.Core.Path.{subst}
use craftcontrol.Base.{
  ◌≡◌, ◌≢◌, refl, sym, ap, Option, none, some, List, [], ◌∷◌, arith, find, Bool-cases, inl, inr,
}
use craftcontrol.Base.Dict.{lookup, lookup-insert_self}
use craftcontrol.Operation.Lifecycle.{
  ServerOperation, Refusal, OperationStage, StageRecord, ok, err, modify_stage, same_stage,
  set_running, set_completed, set_failed, set_skipped, begin_stage, complete_stage, fail_stage,
  skip_stage, confirm, diverge, confirm_stage, verify,
}
use craftcontrol.Operation.Lifecycle.Machine.{
  Call, call, Result-cases, to_begin, to_complete, to_fail, to_skip, to_confirm, to_diverge,
}
use craftcontrol.Operation.Service.{Table, update_stage, write_stage}

-- The stage that a method writes, if it writes one.
abbrev pub touched : Call → Option OperationStage
touched (to_begin s e t u) = some s
touched (to_complete s e t u) = some s
touched (to_fail s x e t u v) = some s
touched (to_skip s r t u) = some s
touched (to_confirm e t u v) = some confirm_stage
touched (to_diverge x o e t u v) = some verify
touched _ = none

-- The write to the record of that stage.
abbrev written : Call → StageRecord → StageRecord
written (to_begin s e t u) = set_running e t
written (to_complete s e t u) = set_completed e t
written (to_fail s x e t u v) = set_failed x e t
written (to_skip s r t u) = set_skipped r t
written (to_confirm e t u v) = set_completed e t
written (to_diverge x o e t u v) = set_completed e t
written _ = λ r. r

written-stage : (c : Call) (r : StageRecord) → (written c r).stage ≡ r.stage
written-stage (to_begin s e t u) r = refl
written-stage _ r = refl

-- The record that a write has made, written to the row of the stage, makes the same stages.
ok_injective {ℓ} : {A : Type ℓ} {x y : A} → ok x ≡ ok y → x ≡ y
ok_injective h = cc

rewrite_stage :
    (s : OperationStage) (f : StageRecord → StageRecord) (rs rs' : List StageRecord)
    → ((r : StageRecord) → (f r).stage ≡ r.stage)
    → modify_stage s f rs ≡ ok rs'
    → (r : StageRecord) × (find (λ x. same_stage x.stage s) rs' ≡ some r)
      × (modify_stage s (λ _. r) rs ≡ ok rs')
unfolding modify_stage
rewrite_stage s f [] rs' n h = cc
rewrite_stage s f (x ∷ xs) rs' n h = elim (Bool-cases (same_stage x.stage s)) [
  | inl here ↦
      let e = ok_injective (rw here at h) in
      (f x, rw (sym e) (rw (n x) (rw here refl)), rw here (ap ok e))
  | inr other ↦ elim (Result-cases (modify_stage s f xs)) [
    | inl (e, p) ↦ ground (arith, rw (other, p) at h)
    | inr (ys, p) ↦
        let (r, found, made) = rewrite_stage s f xs ys n p in
        let e = ok_injective (rw (other, p) at h) in
        (r, rw (sym e) (rw other found), rw other (rw made (ap ok e)))
  ]
]

-- What a method that touches a stage returns: other stages, and other columns of its row.
abbrev restaged : ServerOperation → ServerOperation → List StageRecord → ServerOperation
restaged op op' rs = record op {
  stages = rs;
  state = op'.state;
  updated_at = op'.updated_at;
  completed_at = op'.completed_at;
  terminal_error = op'.terminal_error;
  observation = op'.observation;
}

update_stage-restaged :
    (s : OperationStage) (f : StageRecord → StageRecord) (op o : ServerOperation) (t : Table)
    (rs : List StageRecord)
    → ((r : StageRecord) → (f r).stage ≡ r.stage)
    → modify_stage s f op.stages ≡ ok rs
    → lookup op.operation_id t ≡ some op
    → lookup op.operation_id (update_stage (restaged op o rs) s t) ≡ some (restaged op o rs)
unfolding update_stage
update_stage-restaged s f op o t rs n m h =
    let (r, found, made) = rewrite_stage s f op.stages rs n m in
    rw (found, update_stage)
      (rw (h, update_stage) (rw (made, write_stage) (lookup-insert_self op.operation_id _ t)))

call-touched :
    (c : Call) (s : OperationStage) (op op' : ServerOperation) (rs : List StageRecord)
    → touched c ≡ some s
    → modify_stage s (written c) op.stages ≡ ok rs
    → call c op ≡ ok op'
    → op' ≡ restaged op op' rs
unfolding call begin_stage complete_stage fail_stage skip_stage confirm diverge
call-touched (to_begin s e t u) s' op op' rs h m k = ground arith
call-touched _ s op op' rs h m k = ground arith

call-found :
    (c : Call) (s : OperationStage) (op op' : ServerOperation) (x : Refusal)
    → touched c ≡ some s
    → modify_stage s (written c) op.stages ≡ err x
    → call c op ≢ ok op'
unfolding call begin_stage complete_stage fail_stage skip_stage confirm diverge
call-found (to_begin s e t u) s' op op' x h m k = ground arith
call-found _ s op op' x h m k = ground arith

-- After a method that writes one stage of a stored operation, `update_stage` of that stage alone
-- stores all that the method has changed: a later `get` returns the new operation.
pub update_stage-call :
    (c : Call) (s : OperationStage) (op op' : ServerOperation) (t : Table)
    → touched c ≡ some s
    → call c op ≡ ok op'
    → lookup op.operation_id t ≡ some op
    → lookup op.operation_id (update_stage op' s t) ≡ some op'
update_stage-call c s op op' t h k g = elim (Result-cases (modify_stage s (written c) op.stages)) [
  | inl (x, p) ↦ absurd (call-found c s op op' x h p k)
  | inr (rs, p) ↦
      subst (λ o. lookup op.operation_id (update_stage o s t) ≡ some o)
        (sym (call-touched c s op op' rs h p k))
        (update_stage-restaged s (written c) op op' t rs (written-stage c) p g)
]

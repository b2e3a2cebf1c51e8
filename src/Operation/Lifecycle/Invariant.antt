-- ===== src/Operation/Lifecycle/Invariant.antt =====
-- operations/lifecycle.py: what holds of a `ServerOperation` between two method calls.
use craftcontrol.Base.{
  ℕ, ◌≡◌, refl, ◌∙◌, Bool, true, false, Option, List, [], ◌∷◌, map, String, arith, inl, inr,
  is_some, any, Bool-cases,
}
use craftcontrol.Base.Dict.{Dict}
use craftcontrol.Base.Value.{Value}
use craftcontrol.Operation.Lifecycle.{
  OperationState, OperationStage, ServerOperation, StageRecord, Result, ok, err, start, begin_stage,
  complete_stage, fail_stage, skip_stage, confirm, diverge, update_observation, modify_stage,
  is_terminal, cannot_transition, create, ordered, same_stage, review, confirm_stage, verify,
  set_running, set_completed, set_failed, set_skipped,
}
use craftcontrol.Operation.Lifecycle.Machine.{
  Call, call, after, to_start, to_begin, to_complete, to_fail, to_skip, to_confirm, to_diverge,
  to_observe, Result-cases,
}

abbrev pub is_failure : OperationState → Bool
is_failure OperationState.failed = true
is_failure OperationState.divergent = true
is_failure _ = false

-- The seven stages are there in their order, exactly the terminal states carry a completion time,
-- and exactly the failure states carry a terminal error.
pub record IsWellFormed (op : ServerOperation) : Type 0 where
  pub stage_order : map (λ r. r.stage) op.stages ≡ ordered
  pub sealed : is_some op.completed_at ≡ is_terminal op.state
  pub explained : is_some op.terminal_error ≡ is_failure op.state

pub create-IsWellFormed :
    (uuid : String) (now : ℕ) (server : String) (changes : Dict Value)
    (correlation parent : Option String)
    → IsWellFormed (create uuid now server changes correlation parent)
unfolding create
create-IsWellFormed uuid now server changes correlation parent = record {
  stage_order = refl;
  sealed = refl;
  explained = refl;
}

-- A write to a stage record that keeps the stage's name.
abbrev IsNeutral : (StageRecord → StageRecord) → Type 0
IsNeutral f = (r : StageRecord) → (f r).stage ≡ r.stage

pub map-modify_stage :
    (s : OperationStage) (f : StageRecord → StageRecord) (rs : List StageRecord)
    {rs' : List StageRecord}
    → IsNeutral f
    → modify_stage s f rs ≡ ok rs'
    → map (λ r. r.stage) rs' ≡ map (λ r. r.stage) rs
unfolding modify_stage
map-modify_stage s f [] n h = cc
map-modify_stage s f (r ∷ rs) n h = elim (Result-cases (modify_stage s f rs)) [
  | inl (e, p) ↦ ground (arith, n r)
  | inr (found, p) ↦ ground (arith, n r, map-modify_stage s f rs n p)
]

-- A stage that is there is found.
modify_stage-found :
    (s : OperationStage) (f : StageRecord → StageRecord) (rs : List StageRecord)
    → any (λ t. same_stage t s) (map (λ r. r.stage) rs) ≡ true
    → (rs' : List StageRecord) × (modify_stage s f rs ≡ ok rs')
unfolding modify_stage
modify_stage-found s f [] h = cc
modify_stage-found s f (r ∷ rs) h = elim (Bool-cases (same_stage r.stage s)) [
  | inl here ↦ (f r ∷ rs, ground arith)
  | inr other ↦ let (rs', p) = modify_stage-found s f rs (ground arith) in (r ∷ rs', ground arith)
]

any-ordered : (s : OperationStage) → any (λ t. same_stage t s) ordered ≡ true
any-ordered review = refl
any-ordered _ = refl

pub modify_stage-ordered :
    (s : OperationStage) (f : StageRecord → StageRecord) (op : ServerOperation)
    → IsWellFormed op
    → (rs' : List StageRecord) × (modify_stage s f op.stages ≡ ok rs')
modify_stage-ordered s f op w = modify_stage-found s f op.stages (rw w.stage_order (any-ordered s))

-- A write through `_stage` keeps the order of the stages.
keep_order :
    (s : OperationStage) (f : StageRecord → StageRecord) (op : ServerOperation)
    {rs' : List StageRecord}
    → IsWellFormed op
    → IsNeutral f
    → modify_stage s f op.stages ≡ ok rs'
    → map (λ r. r.stage) rs' ≡ ordered
keep_order s f op w n h = map-modify_stage s f op.stages n h ∙ w.stage_order

-- What a call demands of the state: the argument of `_assert_state`, where the method has one.
abbrev pub demanded : Call → OperationState → Bool
demanded (to_start _) OperationState.pending = true
demanded (to_start _) _ = false
demanded (to_begin _ _ _ _) OperationState.running = true
demanded (to_begin _ _ _ _) _ = false
demanded (to_complete _ _ _ _) OperationState.running = true
demanded (to_complete _ _ _ _) _ = false
demanded (to_confirm _ _ _ _) OperationState.running = true
demanded (to_confirm _ _ _ _) _ = false
demanded (to_diverge _ _ _ _ _ _) OperationState.running = true
demanded (to_diverge _ _ _ _ _ _) _ = false
demanded _ _ = true

abbrev pub accepted {ℓ} : {A : Type ℓ} → Result A → Bool
accepted (ok _) = true
accepted (err _) = false

call-accepted :
    (c : Call) (op : ServerOperation) → IsWellFormed op → accepted (call c op) ≡ demanded c op.state
unfolding call start begin_stage complete_stage fail_stage skip_stage confirm diverge
call-accepted (to_start t) op w = ground arith
call-accepted (to_begin s e t u) op w =
    let (rs', p) = modify_stage-ordered s (set_running e t) op w in ground arith
call-accepted (to_complete s e t u) op w =
    let (rs', p) = modify_stage-ordered s (set_completed e t) op w in ground arith
call-accepted (to_fail s x e t u v) op w =
    let (rs', p) = modify_stage-ordered s (set_failed x e t) op w in ground arith
call-accepted (to_skip s x t u) op w =
    let (rs', p) = modify_stage-ordered s (set_skipped x t) op w in ground arith
call-accepted (to_confirm e t u v) op w =
    let (rs', p) = modify_stage-ordered confirm_stage (set_completed e t) op w in ground arith
call-accepted (to_diverge x o e t u v) op w =
    let (rs', p) = modify_stage-ordered verify (set_completed e t) op w in ground arith
call-accepted (to_observe o t) op w = ground arith

call-undemanded :
    (c : Call) (op : ServerOperation)
    → demanded c op.state ≡ false
    → call c op ≡ err (cannot_transition op.state)
unfolding call start begin_stage complete_stage confirm diverge
call-undemanded (to_start t) op h = ground arith
call-undemanded _ op h = ground arith

-- A method accepts a well-formed operation exactly when the operation is in the state that the
-- method demands, so `_stage` never raises; otherwise it raises the error that names the state.
pub call-accepted_iff :
    (c : Call) (op : ServerOperation)
    → IsWellFormed op
    → (accepted (call c op) ≡ demanded c op.state)
      × (demanded c op.state ≡ false → call c op ≡ err (cannot_transition op.state))
call-accepted_iff c op w = (call-accepted c op w, call-undemanded c op)

-- Every method, accepted or refused, keeps the operation well-formed.
pub call-IsWellFormed :
    (c : Call) (op : ServerOperation) → IsWellFormed op → IsWellFormed (after op (call c op))
unfolding call start begin_stage complete_stage fail_stage skip_stage confirm diverge
    update_observation
call-IsWellFormed (to_start t) op w = ground arith
call-IsWellFormed (to_begin s e t u) op w =
    let (rs', p) = modify_stage-ordered s (set_running e t) op w in
    ground (arith, keep_order s (set_running e t) op w (λ r. refl) p)
call-IsWellFormed (to_complete s e t u) op w =
    let (rs', p) = modify_stage-ordered s (set_completed e t) op w in
    ground (arith, keep_order s (set_completed e t) op w (λ r. refl) p)
call-IsWellFormed (to_fail s x e t u v) op w =
    let (rs', p) = modify_stage-ordered s (set_failed x e t) op w in
    ground (arith, keep_order s (set_failed x e t) op w (λ r. refl) p)
call-IsWellFormed (to_skip s x t u) op w =
    let (rs', p) = modify_stage-ordered s (set_skipped x t) op w in
    ground (arith, keep_order s (set_skipped x t) op w (λ r. refl) p)
call-IsWellFormed (to_confirm e t u v) op w =
    let (rs', p) = modify_stage-ordered confirm_stage (set_completed e t) op w in
    ground (arith, keep_order confirm_stage (set_completed e t) op w (λ r. refl) p)
call-IsWellFormed (to_diverge x o e t u v) op w =
    let (rs', p) = modify_stage-ordered verify (set_completed e t) op w in
    ground (arith, keep_order verify (set_completed e t) op w (λ r. refl) p)
call-IsWellFormed (to_observe o t) op w = ground arith

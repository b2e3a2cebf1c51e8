-- ===== src/Operation/Worker/Stages/Post.antt =====
-- operations/service.py: what holds of the worker's world after a step that goes on, that returns
-- from `_run`, or that raises, with the rule for a sequence of steps.
use craftcontrol.Base.{
  ℕ, ◌≡◌, refl, sym, ◌∙◌, Bool, true, false, some, [], ◌∷◌, String, arith, inl, inr, ap,
}
use mathlib.Core.Path.{subst}
use craftcontrol.Base.Dict.{Dict, lookup, lookup-insert_self}
use craftcontrol.Base.Value.{Value, text}
use craftcontrol.Schema.Tables.{property_names}
use craftcontrol.Operation.Lifecycle.{
  ServerOperation, OperationState, OperationStage, begin_stage, complete_stage, skip_stage, ok,
  is_terminal,
}
use craftcontrol.Operation.Lifecycle.Machine.{
  Call, call, after, Result-cases, to_begin, to_complete, to_skip,
}
use craftcontrol.Operation.Lifecycle.Invariant.{
  IsWellFormed, call-IsWellFormed, call-accepted_iff, demanded,
}
use craftcontrol.Operation.Lifecycle.Trace.{identity, identity-call}
use craftcontrol.Operation.Service
use craftcontrol.Operation.Service.{Table, update_stage}
use craftcontrol.Operation.Worker.State.{
  Environment, Reply, answer, broken, Reply-cases, Status, World, Outcome, done, raised, returned,
  Run, go_on, now, perform, settle_write, save, save_stage, ◌>>=◌, ◌>>◌, change, publish,
}

-- The changes after REVIEW: each key has a property, and each value is a text.
abbrev pub IsReviewed : Dict Value → Type 0
IsReviewed [] = Unit
IsReviewed ((key, v) ∷ d) =
    ((name : String) × (s : String) × (lookup key property_names ≡ some name) × (v ≡ text s))
    × IsReviewed d

-- Every change is the text that server.properties has under the property of its key.
abbrev pub AreMet : Dict String → Dict Value → Type 0
AreMet properties [] = Unit
AreMet properties ((key, v) ∷ d) =
    ((name : String) × (s : String) × (lookup key property_names ≡ some name)
      × (v ≡ text s)
      × (lookup name properties ≡ some s))
    × AreMet properties d

-- An operation between two stages, with what is known of its changes.
pub record IsActive (R : Dict Value → Type 0) (op : ServerOperation) : Type 0 where
  pub well_formed : IsWellFormed op
  pub running : op.state ≡ OperationState.running
  pub changes : R op.requested_changes

abbrev pub Active : (Dict Value → Type 0) → World → Type 0
Active R w = IsActive R w.operation

-- A call that leaves a running operation running.
abbrev pub is_inner : Call → Bool
is_inner (to_begin _ _ _ _) = true
is_inner (to_complete _ _ _ _) = true
is_inner (to_skip _ _ _ _) = true
is_inner _ = false

state-call_inner :
    (c : Call) (op : ServerOperation) → is_inner c ≡ true → (after op (call c op)).state ≡ op.state
unfolding call begin_stage complete_stage skip_stage
state-call_inner (to_begin s e t u) op h = ground arith
state-call_inner (to_complete s e t u) op h = ground arith
state-call_inner (to_skip s e t u) op h = ground arith
state-call_inner _ op h = cc

inner-demanded : (c : Call) → is_inner c ≡ true → demanded c OperationState.running ≡ true
inner-demanded (to_begin s e t u) h = refl
inner-demanded (to_complete s e t u) h = refl
inner-demanded (to_skip s e t u) h = refl
inner-demanded _ h = cc

-- A call in the state that it demands.
pub call-demanded :
    (c : Call) (op : ServerOperation)
    → IsWellFormed op
    → demanded c op.state ≡ true
    → (op' : ServerOperation) × (call c op ≡ ok op')
      × IsWellFormed op'
      × (identity op' ≡ identity op)
call-demanded c op w h = elim (Result-cases (call c op)) [
  | inl (e, p) ↦ ground (arith, p, call-accepted_iff c op w, h)
  | inr (op', p) ↦
      (op', p, rw (p, after) at (call-IsWellFormed c op w), rw (p, after) at (identity-call c op))
]

module _ (env : Environment) where
  -- One of the reads of server.properties found every change, and one of the observations found
  -- the server online.
  pub record IsVerified (changes : Dict Value) : Type 0 where
    pub reading : ℕ
    pub properties : Dict String
    pub read : env.read_properties reading ≡ answer properties
    pub met : AreMet properties changes
    pub observation : ℕ
    pub status : Status
    pub seen : env.status observation ≡ answer status
    pub online : status.online ≡ true

  -- Every write reaches SQLite.
  abbrev pub AreWritten : Type 0
  AreWritten = (n : ℕ) → env.write n ≡ answer tt

  -- The table has the thread's object as its row.
  abbrev pub IsStored : ServerOperation → Table → Type 0
  IsStored op table = lookup op.operation_id table ≡ some op

  -- At any moment of the thread.
  pub record IsSound (op : ServerOperation) (table : Table) : Type 0 where
    pub well_formed : IsWellFormed op
    pub verified : op.state ≡ OperationState.confirmed → IsVerified op.requested_changes
    pub stored : is_terminal op.state ≡ true → AreWritten → IsStored op table

  -- When the thread ends.
  abbrev pub IsFinal : World → Type 0
  IsFinal w = IsSound w.operation w.table × (is_terminal w.operation.state ≡ true)

  abbrev pub Post : {A : Type 0} → (A → World → Type 0) → Outcome A → World → Type 0
  Post Q (done a) w = Q a w
  Post Q returned w = IsFinal w
  Post Q (raised e) w = IsSound w.operation w.table

  -- From a world with the one property, the step ends in a world with the other.
  abbrev pub Triple : {A : Type 0} → (World → Type 0) → Run A → (A → World → Type 0) → Type 0
  Triple P m Q = (w : World) → P w → Post Q (m w).0 (m w).1

  go_on-Post :
      {A B : Type 0} (Q : A → World → Type 0) (S : B → World → Type 0) (o : Outcome A) (w : World)
      (f : A → Run B)
      → Post Q o w
      → ((a : A) → Triple (Q a) (f a) S)
      → Post S (go_on o f w).0 (go_on o f w).1
  go_on-Post Q S (done a) w f q k = k a w q
  go_on-Post Q S returned w f q k = q
  go_on-Post Q S (raised e) w f q k = q

  pub sequence :
      {A B : Type 0} {P : World → Type 0} (Q : A → World → Type 0) (S : B → World → Type 0)
      (m : Run A) (f : A → Run B)
      → Triple P m Q
      → ((a : A) → Triple (Q a) (f a) S)
      → Triple P (m >>= f) S
  sequence Q S m f h k w p = go_on-Post Q S (m w).0 (m w).1 f (h w p) k

  module _ {R : Dict Value → Type 0} where
    pub IsActive-IsSound : (op : ServerOperation) (table : Table) → IsActive R op → IsSound op table
    IsActive-IsSound op table a = record {
      well_formed = a.well_formed;
      verified = λ h. ground (arith, h, a.running);
      stored = λ h. ground (arith, h, a.running);
    }

    -- A method that a running operation accepts and that leaves it running.
    perform-Post :
        (c : ℕ → Call)
        → ((t : ℕ) → is_inner (c t) ≡ true)
        → Triple (Active R) (perform env c) (λ _. Active R)
    unfolding perform
    perform-Post c inner w a =
        let t = c (now env w) in
        let (op, p, good, same) =
          call-demanded t w.operation a.well_formed
            (rw a.running (inner-demanded t (inner (now env w)))) in
        rw p record {
          well_formed = good;
          running =
              rw (p, after) at (state-call_inner t w.operation (inner (now env w))) ∙ a.running;
          changes = subst R (sym (ap (λ x. x.2) same)) a.changes;
        }

    settle_write-Post :
        (f : Table → Table) (w : World) (r : Reply (Unit {0}))
        → IsActive R w.operation
        → Post (λ _. Active R) (settle_write env w f r).0 (settle_write env w f r).1
    settle_write-Post f w (answer _) a = a
    settle_write-Post f w (broken e) a = IsActive-IsSound w.operation w.table a

    pub save-Active : Triple (Active R) (save env) (λ _. Active R)
    unfolding save
    save-Active w a = settle_write-Post (Service.save w.operation) w (env.write w.writes) a

    pub save_stage-Active :
        (s : OperationStage) → Triple (Active R) (save_stage env s) (λ _. Active R)
    unfolding save_stage
    save_stage-Active s w a =
        settle_write-Post (update_stage w.operation s) w (env.write w.writes) a

    -- A step that performs a call, writes a stage and publishes.
    pub advance-Active :
        (c : ℕ → Call) (s : OperationStage)
        → ((t : ℕ) → is_inner (c t) ≡ true)
        → Triple (Active R) (perform env c >> (save_stage env s >> change publish)) (λ _. Active R)
    advance-Active c s inner =
        sequence (λ _. Active R) (λ _. Active R) (perform env c)
          (λ _. save_stage env s >> change publish) (perform-Post c inner)
          (λ _.
            sequence (λ _. Active R) (λ _. Active R) (save_stage env s) (λ _. change publish)
              (save_stage-Active s) (λ _ w a. a))

  -- The last write of the object, once it is terminal.
  pub save-IsFinal :
      (w : World)
      → IsWellFormed w.operation
      → is_terminal w.operation.state ≡ true
      → (w.operation.state ≡ OperationState.confirmed → IsVerified w.operation.requested_changes)
      → Post (λ _. IsFinal) (save env w).0 (save env w).1
  unfolding save Service.save
  save-IsFinal w good end verified = elim (Reply-cases (env.write w.writes)) [
    | inl (u, p) ↦ rw p (
      record {
        well_formed = good;
        verified = verified;
        stored = λ h h'. lookup-insert_self w.operation.operation_id w.operation w.table;
      },
      end,
    )
    | inr (e, p) ↦ rw p record {
      well_formed = good;
      verified = verified;
      stored = λ h written. ground (arith, p, written w.writes);
    }
  ]

-- ===== src/Operation/Worker/State.antt =====
-- operations/service.py: what a worker thread sees and changes.
-- The ports (the container, server.properties, the change to apply), the clock and whether a write to
-- SQLite succeeds are the environment; the n-th call of a port gets its n-th answer. The object
-- `operation` that the thread holds and the row of the table are two copies.
use craftcontrol.Base.{ℕ, ◌+◌, ◌≡◌, refl, ◌⊎◌, inl, inr, Bool, Option, List, [], ◌∷◌, ◌++◌, String}
use craftcontrol.Base.Dict.{Dict}
use craftcontrol.Base.Value.{Value}
use craftcontrol.Schema.{Conversions}
use craftcontrol.Operation.Lifecycle.{
  ServerOperation, OperationState, OperationStage, Refusal, Result, ok, err, update_observation,
}
use craftcontrol.Operation.Lifecycle.Machine.{Call, call}
use craftcontrol.Operation.Service
use craftcontrol.Operation.Service.{Table, update_stage}

-- What a call of a port does: it answers, or raises an exception with a text.
pub data Reply {ℓ} (A : Type ℓ) : Type ℓ where
  answer : A → Reply A
  broken : String → Reply A

pub Reply-cases {ℓ} :
    {A : Type ℓ} (r : Reply A) → ((a : A) × (r ≡ answer a)) ⊎ ((e : String) × (r ≡ broken e))
Reply-cases (answer a) = inl (a, refl)
Reply-cases (broken e) = inr (e, refl)

-- The fields of `docker.status()` that the service reads.
pub record Status : Type 0 where
  pub state : Option String
  pub online : Bool

pub record Environment : Type 0 where
  pub conversions : Conversions
  pub sorted : List String → List String
  -- the text of what a method of the lifecycle raises
  pub refusal_text : Refusal → String
  pub apply_fn : Reply (Unit {0})
  pub execute : Reply (Unit {0})
  pub status : ℕ → Reply Status
  pub read_properties : ℕ → Reply (Dict String)
  -- the n-th write reaches SQLite, or raises with the text
  pub write : ℕ → Reply (Unit {0})
  -- `_now()` at a reading of the monotonic clock
  pub wall : ℕ → ℕ
  -- how long the n-th observation takes, and how much longer than asked the n-th sleep
  pub delay : ℕ → ℕ
  pub oversleep : ℕ → ℕ
  pub health_timeout : ℕ
  -- the text of the number of seconds
  pub health_text : String

-- The calls of ports that change the server or its files, or refresh the panel's settings.
pub data Effect : Type 0 where
  applied refreshed : Effect
  executed : Dict Value → Effect

pub record World : Type 0 where
  pub operation : ServerOperation
  pub table : Table
  -- the monotonic clock, in microseconds
  pub time : ℕ
  pub writes : ℕ
  pub observed : ℕ
  pub reads : ℕ
  -- the payloads of `operation.updated`, whether or not the broker takes them
  pub published : List ServerOperation
  -- the action and the result of each audit entry
  pub audits : List (String × OperationState)
  pub effects : List Effect
  pub live_workers : List String

-- A step of the thread goes on with a value, returns from `_run`, or raises.
pub data Outcome {ℓ} (A : Type ℓ) : Type ℓ where
  done : A → Outcome A
  returned : Outcome A
  raised : String → Outcome A

abbrev pub Run : Type 0 → Type 0
Run A = World → Outcome A × World

infixl 10 ◌>>=◌ ◌>>◌
abbrev pub go_on : {A B : Type 0} → Outcome A → (A → Run B) → Run B
go_on (done a) f w = f a w
go_on returned f w = (returned, w)
go_on (raised e) f w = (raised e, w)

abbrev pub ◌>>=◌ : {A B : Type 0} → Run A → (A → Run B) → Run B
◌>>=◌ m f w = go_on (m w).0 f (m w).1

abbrev pub ◌>>◌ : {B : Type 0} → Run (Unit {0}) → Run B → Run B
m >> n = m >>= λ _. n

-- A step that does not raise.
abbrev pub change : (World → World) → Run (Unit {0})
change f w = (done tt, f w)

-- `return`
abbrev pub leave : {A : Type 0} → Run A
leave w = (returned, w)

-- `_publish`, which drops what the broker raises
abbrev pub publish : World → World
publish w = record w { published = w.published ++ w.operation ∷ [] }

-- `_audit_terminal`, which drops what the audit service raises
abbrev pub audit_terminal : String → World → World
audit_terminal action w = record w { audits = w.audits ++ (action, w.operation.state) ∷ [] }

module _ (env : Environment) where
  abbrev pub now : World → ℕ
  now w = env.wall w.time

  abbrev pub settle_call : World → Result ServerOperation → Outcome (Unit {0}) × World
  settle_call w (err e) = (raised (env.refusal_text e), w)
  settle_call w (ok op) = (done tt, record w { operation = op })

  -- A method of the operation, with the readings of the clock that it makes.
  unfoldable pub perform : (ℕ → Call) → Run (Unit {0})
  perform c w = settle_call w (call (c (now w)) w.operation)

  -- `operation.update_observation(observation)`
  abbrev pub note : Dict Value → World → World
  note observation w = record w { operation = update_observation observation (now w) w.operation }

  abbrev pub settle_write : World → (Table → Table) → Reply (Unit {0}) → Outcome (Unit {0}) × World
  settle_write w f (answer _) = (done tt, record w { table = f w.table; writes = w.writes + 1 })
  settle_write w f (broken e) = (raised e, record w { writes = w.writes + 1 })

  -- `self._repo.save(operation)`
  unfoldable pub save : Run (Unit {0})
  save w = settle_write w (Service.save w.operation) (env.write w.writes)

  -- `self._repo.update_stage(operation, stage)`
  unfoldable pub save_stage : OperationStage → Run (Unit {0})
  save_stage s w = settle_write w (update_stage w.operation s) (env.write w.writes)

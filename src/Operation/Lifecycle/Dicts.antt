-- ===== src/Operation/Lifecycle/Dicts.antt =====
-- operations/lifecycle.py and operations/repository.py: an operation as the dict that `_load` makes
-- of its rows, and `from_dict`. The JSON text of a column is read back as the dict it was made of.
use craftcontrol.Base.{ℕ, ◌≡◌, refl, ap, Option, none, some, List, [], ◌∷◌, String}
use craftcontrol.Base.Dict.{Dict, lookup}
use craftcontrol.Base.Value.{
  Value, null, text, time, arr, obj, Items, item, no_items, fields, nested, entries,
}
use craftcontrol.Operation.Lifecycle.{StageRecord, ServerOperation}
use craftcontrol.Operation.Lifecycle.Names.{
  state_value, state_of, stage_value, stage_of, result_value, result_of, state_of-state_value,
  stage_of-stage_value, result_of-result_value,
}

abbrev or_null {ℓ} : {A : Type ℓ} → (A → Value) → Option A → Value
or_null f none = null
or_null f (some a) = f a

-- A value of another type, which `_load` never passes on, counts as a missing one.
-- A missing key and `None` are the same to `data.get(key)`.
abbrev time_of : Option Value → Option ℕ
time_of (some (time t)) = some t
time_of _ = none

abbrev text_of : Option Value → Option String
text_of (some (text s)) = some s
text_of _ = none

-- `data.get(key) or {}`
abbrev dict_of : Option Value → Dict Value
dict_of (some (obj fs)) = entries fs
dict_of _ = []

-- `data[key]` at a text or a time; `none` stands for the exception
abbrev and_then {ℓ κ} : {A : Type ℓ} {B : Type κ} → Option A → (A → Option B) → Option B
and_then none f = none
and_then (some a) f = f a

-- The dict of one stage that `_load` passes on.
unfoldable pub stage_dict : StageRecord → Dict Value
stage_dict r =
    ("stage", text (stage_value r.stage))
    ∷ ("result", text (result_value r.result))
    ∷ ("started_at", or_null time r.started_at)
    ∷ ("completed_at", or_null time r.completed_at)
    ∷ ("evidence", nested r.evidence)
    ∷ ("error", or_null text r.error)
    ∷ []

-- `StageRecord.from_dict`
unfoldable pub stage_from_dict : Dict Value → Option StageRecord
unfolding lookup
stage_from_dict d = and_then (and_then (text_of (lookup "stage" d)) stage_of) (λ s.
    and_then (and_then (text_of (lookup "result" d)) result_of) (λ r. some (record {
      stage = s;
      result = r;
      started_at = time_of (lookup "started_at" d);
      completed_at = time_of (lookup "completed_at" d);
      evidence = dict_of (lookup "evidence" d);
      error = text_of (lookup "error" d);
    })))

time_of-or_null : (o : Option ℕ) → time_of (some (or_null time o)) ≡ o
time_of-or_null none = refl
time_of-or_null (some t) = refl

text_of-or_null : (o : Option String) → text_of (some (or_null text o)) ≡ o
text_of-or_null none = refl
text_of-or_null (some t) = refl

pub entries-fields : (d : Dict Value) → entries (fields d) ≡ d
unfolding entries fields
entries-fields [] = refl
entries-fields ((k, v) ∷ d) = ap (λ e. (k, v) ∷ e) (entries-fields d)

stage_from_dict-stage_dict : (r : StageRecord) → stage_from_dict (stage_dict r) ≡ some r
unfolding stage_from_dict stage_dict lookup
stage_from_dict-stage_dict r = rw (stage_of-stage_value r.stage) (
    rw (result_of-result_value r.result) (
      rw (entries-fields r.evidence) (
        rw (time_of-or_null r.started_at, time_of-or_null r.completed_at, text_of-or_null r.error)
          refl)))

unfoldable pub stage_items : List StageRecord → Items
stage_items [] = no_items
stage_items (r ∷ rs) = item (obj (fields (stage_dict r))) (stage_items rs)

-- The list of `StageRecord.from_dict(s)`; an item that is no dict makes it raise.
unfoldable pub stages_from : Items → Option (List StageRecord)
unfolding entries stage_from_dict
stages_from no_items = some []
stages_from (item (obj fs) rest) =
    and_then (stage_from_dict (entries fs)) (λ r. and_then (stages_from rest) (λ rs. some (r ∷ rs)))
stages_from (item _ rest) = none

-- `data.get("stages") or []`
abbrev stages_of : Option Value → Option (List StageRecord)
stages_of (some (arr items)) = stages_from items
stages_of _ = some []

-- The dict of an operation that `_load` passes to `from_dict`.
unfoldable pub row_dict : ServerOperation → Dict Value
unfolding stage_items
row_dict op =
    ("operation_id", text op.operation_id)
    ∷ ("server_id", text op.server_id)
    ∷ ("state", text (state_value op.state))
    ∷ ("requested_changes", nested op.requested_changes)
    ∷ ("created_at", time op.created_at)
    ∷ ("updated_at", time op.updated_at)
    ∷ ("completed_at", or_null time op.completed_at)
    ∷ ("terminal_error", or_null text op.terminal_error)
    ∷ ("observation", nested op.observation)
    ∷ ("correlation_id", or_null text op.correlation_id)
    ∷ ("parent_operation_id", or_null text op.parent_operation_id)
    ∷ ("stages", arr (stage_items op.stages))
    ∷ []

-- `ServerOperation.from_dict`
unfoldable pub from_dict : Dict Value → Option ServerOperation
unfolding lookup stages_from
from_dict d = and_then (text_of (lookup "operation_id" d)) (λ oid.
    and_then (text_of (lookup "server_id" d)) (λ server.
      and_then (and_then (text_of (lookup "state" d)) state_of) (λ state.
        and_then (stages_of (lookup "stages" d)) (λ stages.
          and_then (time_of (lookup "created_at" d)) (λ made.
            and_then (time_of (lookup "updated_at" d)) (λ changed. some (record {
              operation_id = oid;
              server_id = server;
              requested_changes = dict_of (lookup "requested_changes" d);
              state = state;
              stages = stages;
              created_at = made;
              updated_at = changed;
              completed_at = time_of (lookup "completed_at" d);
              terminal_error = text_of (lookup "terminal_error" d);
              observation = dict_of (lookup "observation" d);
              correlation_id = text_of (lookup "correlation_id" d);
              parent_operation_id = text_of (lookup "parent_operation_id" d);
            })))))))

stages_from-stage_items : (rs : List StageRecord) → stages_from (stage_items rs) ≡ some rs
unfolding stages_from stage_items
stages_from-stage_items [] = refl
stages_from-stage_items (r ∷ rs) =
    rw (entries-fields (stage_dict r))
      (rw (stage_from_dict-stage_dict r) (rw (stages_from-stage_items rs) refl))

-- An operation that is read back from the dict of its rows is the operation, with all its stages.
pub from_dict-row_dict : (op : ServerOperation) → from_dict (row_dict op) ≡ some op
unfolding from_dict row_dict lookup
from_dict-row_dict op = rw (state_of-state_value op.state) (
    rw (stages_from-stage_items op.stages) (
      rw (entries-fields op.requested_changes, entries-fields op.observation)
        (rw
          (
            time_of-or_null op.completed_at,
            text_of-or_null op.terminal_error,
            text_of-or_null op.correlation_id,
            text_of-or_null op.parent_operation_id,
          )
          refl)))

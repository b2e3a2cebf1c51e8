-- ===== src/Telemetry.antt =====
-- apps/server/controlplane/src/telemetry/service.py, and the event table of telemetry/repository.py:
-- the telemetry of the behavior pack comes in numbered envelopes.
-- An envelope has passed `parse_telemetry_line`, so its topic is one of TOPICS. The texts of the stored
-- telemetry state are kept as what they stand for, and are not cut to their lengths. Times are numbers
-- of microseconds. What an envelope changes in the tables of the players is left out.
pub mod Ingest
mod Updates
pub mod Counts
pub mod Sequence
pub mod Blocked
mod Scenarios
use craftcontrol.Base.{
  ℕ, ◌+◌, ◌-◌, max, Bool, true, false, not, ◌&&◌, ◌||◌, Option, none, some, List, [], ◌∷◌, String,
  str_eq, ltb, ◌==◌, if◌then◌else◌, length, filter,
}
use craftcontrol.Base.Dict.{Dict, lookup, insert}

-- TOPICS
pub data Topic : Type 0 where
  started joined left respawned dimension_changed died blocks_changed items_used : Topic
  interactions_changed metrics_changed snapshot_started snapshot_player snapshot_finished : Topic

unfoldable pub topic_text : Topic → String
topic_text started = "telemetry.started"
topic_text joined = "player.joined"
topic_text left = "player.left"
topic_text respawned = "player.respawned"
topic_text dimension_changed = "player.dimension.changed"
topic_text died = "entity.died"
topic_text blocks_changed = "blocks.changed"
topic_text items_used = "items.used"
topic_text interactions_changed = "interactions.changed"
topic_text metrics_changed = "metrics.changed"
topic_text snapshot_started = "snapshot.started"
topic_text snapshot_player = "snapshot.player"
topic_text snapshot_finished = "snapshot.finished"

-- `topic.startswith("snapshot.")`
abbrev pub is_snapshot : Topic → Bool
is_snapshot snapshot_started = true
is_snapshot snapshot_player = true
is_snapshot snapshot_finished = true
is_snapshot _ = false

abbrev pub is_started : Topic → Bool
is_started started = true
is_started _ = false

pub record Storage : Type 0 where
  pub version : String
  pub status : Option String
  pub persistence_blocked : Bool
  pub migrated_from : Option String
  pub error : Option String

-- What the service reads of an envelope.
pub record Envelope : Type 0 where
  pub topic : Topic
  pub sequence : ℕ
  pub schema : String
  pub timestamp : Option String
  -- the player, and the victim and the killer of `entity.died`
  pub player : Option String
  pub victim : Option String
  pub killer : Option String
  pub version : Option String
  pub storage : Option Storage
  -- whether each capability that is listed is supported
  pub capabilities : Option (List Bool)
  pub metrics : Option (Dict Bool)
  -- the declared totals of `blocks.changed`, and the players of `snapshot.finished`
  pub broken_total : ℕ
  pub placed_total : ℕ
  pub players : Option ℕ

pub data Status : Type 0 where
  waiting syncing healthy degraded : Status

-- The domain `telemetry` of the state table.
pub record State : Type 0 where
  pub status : Status
  pub sequence : Option ℕ
  pub expected_sequence : ℕ
  pub schema : String
  pub last_topic : Option Topic
  pub last_event_at : ℕ
  pub pack_version : Option String
  pub storage_version : String
  pub storage_status : String
  pub storage_migrated_from : String
  pub persistence_blocked : Bool
  pub capabilities : List Bool
  pub is_full : Bool
  pub capabilities_supported : ℕ
  pub capabilities_total : ℕ
  pub metrics : Option (Dict Bool)
  pub snapshot_started_at : Option ℕ
  pub last_snapshot_at : Option ℕ
  pub gap_count : ℕ
  pub missing_events : ℕ
  pub last_gap : Option (ℕ × ℕ)
  pub reset_count : ℕ
  pub last_error : String

-- `_topic_metrics`
pub record TopicMetrics : Type 0 where
  pub accepted : ℕ
  pub rejected : ℕ
  pub duplicates : ℕ
  pub old : ℕ
  pub gaps : ℕ
  pub resets : ℕ

pub record Diagnostics : Type 0 where
  pub accepted : ℕ
  pub rejected : ℕ
  pub duplicates : ℕ
  pub old : ℕ
  pub attempted : ℕ
  pub duration_total : ℕ
  pub duration_max : ℕ
  pub by_topic : Dict TopicMetrics
  pub lost : ℕ
  pub gaps : ℕ
  pub resets : ℕ
  pub batches : ℕ
  pub blocks_declared : ℕ
  pub max_blocks_declared : ℕ
  pub snapshots : ℕ
  pub snapshot_total : ℕ
  pub snapshot_max : ℕ
  pub last_player_count : Option ℕ
  pub pending_snapshot : Option ℕ

pub data Published : Type 0 where
  sequence_rejected : (sequence last_sequence : ℕ) (topic : Topic) → Published
  ingested : (topic : Topic) (players : List String) (sequence : ℕ) → Published
  state_changed : (players : List String) → Published
  reconciliation_required : (reason : String) (sequence : ℕ) → Published

pub record Service : Type 0 where
  pub state : State
  -- the keys of `telemetry_events`, from the oldest
  pub events : List String
  pub diagnostics : Diagnostics
  pub published : List Published
  pub requested : List String

-- The clocks that one `ingest` reads: the wall, and the performance counter at its start and its end.
pub record Clock : Type 0 where
  pub wall : ℕ
  pub start : ℕ
  pub snapshot : ℕ
  pub end : ℕ

abbrev pub or_text : Option String → String → String
or_text none t = t
or_text (some s) t = s

abbrev pub is_blocked : Option Storage → Bool
is_blocked none = false
is_blocked (some s) = s.persistence_blocked || str_eq (or_text s.status "") "blocked"

-- Where the sequence of an envelope stands to the last one.
pub data Place : Type 0 where
  first next : Place
  behind same : ℕ → Place
  gap : (last missing : ℕ) → Place

unfoldable pub place : Option ℕ → ℕ → Place
place none n = first
place (some last) n =
    if ltb n last
    then behind last
    else if n == last
    then same last
    else if ltb (last + 1) n
    then gap last (n - last - 1)
    else next

abbrev pub supported : List Bool → ℕ
supported cs = length (filter (λ c. c) cs)

abbrev pub with_version : Topic → Option String → State → State
with_version started (some v) s = record s { pack_version = some v }
with_version _ _ s = s

abbrev pub with_storage : Option Storage → State → State
with_storage none s = s
with_storage (some g) s = record s {
  storage_version = g.version;
  storage_status = or_text g.status "unknown";
  persistence_blocked = is_blocked (some g);
  storage_migrated_from = or_text g.migrated_from "";
}

abbrev pub with_capabilities : Option (List Bool) → State → State
with_capabilities none s = s
with_capabilities (some []) s = s
with_capabilities (some (c ∷ cs)) s = record s {
  capabilities = c ∷ cs;
  is_full = supported (c ∷ cs) == length (c ∷ cs);
  capabilities_supported = supported (c ∷ cs);
  capabilities_total = length (c ∷ cs);
}

abbrev pub with_metrics : Option (Dict Bool) → State → State
with_metrics none s = s
with_metrics (some m) s = record s { metrics = some m }

-- The updates that every envelope makes.
unfoldable pub base_updates : ℕ → Envelope → State → State
base_updates wall e s = with_metrics e.metrics (
    with_capabilities e.capabilities (
      with_storage e.storage (
        with_version e.topic e.version (record s {
          schema = e.schema;
          sequence = some e.sequence;
          expected_sequence = e.sequence + 1;
          last_topic = some e.topic;
          last_event_at = wall;
        }))))

abbrev pub blocked_error : String
blocked_error = "telemetry pack persistence is blocked"

unfoldable pub snapshot_updates : ℕ → Bool → Bool → Topic → State → State
snapshot_updates wall blocked known snapshot_started s = record s {
  status = if blocked then degraded else syncing;
  snapshot_started_at = some wall;
}
snapshot_updates wall blocked known snapshot_finished s =
    if known
    then record s { status = degraded; last_error = blocked_error }
    else record s { status = healthy; last_snapshot_at = some wall; last_error = "" }
snapshot_updates wall blocked known _ s = s

abbrev pub settled : Status → Status
settled syncing = syncing
settled degraded = degraded
settled _ = healthy

-- A resynchronisation that an envelope asks for.
abbrev pub resync : Topic → Place → Option String
resync topic (gap last missing) = if is_snapshot topic then none else some "sequence-gap"
resync topic place = if is_started topic then some "pack-started" else none

-- The branches on the topic and the sequence. `error` gives the texts of the errors.
module _ (error : Place → ℕ → String) where
  unfoldable pub sequence_updates : ℕ → Bool → Bool → Envelope → Place → State → State
  unfolding snapshot_updates
  sequence_updates wall blocked known e p s =
      if is_snapshot e.topic then snapshot_updates wall blocked known e.topic s else elim p [
        | gap last missing ↦ record s {
          status = degraded;
          gap_count = s.gap_count + 1;
          missing_events = s.missing_events + missing;
          last_gap = some (last + 1, e.sequence - 1);
          last_error = error (gap last missing) e.sequence;
        }
        | behind last ↦
            if is_started e.topic
            then record s {
              status = syncing;
              reset_count = s.reset_count + 1;
              last_error = error (behind last) e.sequence;
            }
            else record s { status = settled s.status }
        | _ ↦ record s { status = if is_started e.topic then syncing else settled s.status }
      ]

abbrev pub blocked_updates : Option Storage → Bool → State → State
blocked_updates none blocked s = s
blocked_updates (some g) blocked s =
    if blocked
    then record s { status = degraded; last_error = or_text g.error blocked_error }
    else s

abbrev pub no_metrics : TopicMetrics
no_metrics = record { accepted = 0; rejected = 0; duplicates = 0; old = 0; gaps = 0; resets = 0 }

abbrev pub or_zero : Option TopicMetrics → TopicMetrics
or_zero none = no_metrics
or_zero (some m) = m

unfoldable pub count_topic : Topic → (TopicMetrics → TopicMetrics) → Diagnostics → Diagnostics
unfolding topic_text lookup insert
count_topic topic f d = record d {
  by_topic =
      insert (topic_text topic) (f (or_zero (lookup (topic_text topic) d.by_topic))) d.by_topic;
}

abbrev pub record_duration : Clock → Diagnostics → Diagnostics
record_duration c d = record d {
  attempted = d.attempted + 1;
  duration_total = d.duration_total + (c.end - c.start);
  duration_max = max d.duration_max (c.end - c.start);
}

-- Whether the sequence of an envelope refuses it.
abbrev pub is_refused : Topic → Place → Bool
is_refused topic (behind last) = not (is_snapshot topic) && not (is_started topic)
is_refused topic (same last) = not (is_snapshot topic)
is_refused topic _ = false

abbrev pub last_of : Place → ℕ
last_of (behind last) = last
last_of (same last) = last
last_of (gap last _) = last
last_of _ = 0

abbrev pub is_same : Place → Bool
is_same (same _) = true
is_same _ = false

-- What is counted of a refused envelope.
unfoldable pub count_refused : Topic → Place → Clock → Diagnostics → Diagnostics
unfolding count_topic
count_refused topic p c d =
    let d' = record d {
      rejected = d.rejected + 1;
      duplicates = if is_same p then d.duplicates + 1 else d.duplicates;
      old = if is_same p then d.old else d.old + 1;
    } in
    record_duration c (
      count_topic topic
        (λ m. record m {
          rejected = m.rejected + 1;
          duplicates = if is_same p then m.duplicates + 1 else m.duplicates;
          old = if is_same p then m.old else m.old + 1;
        })
        d')

-- What is counted before the envelope goes to its table.
unfoldable pub count_sequence : Topic → Place → Clock → Diagnostics → Diagnostics
unfolding count_topic
count_sequence snapshot_started p c d = record (count_topic snapshot_started (λ m. m) d) {
  pending_snapshot = some c.snapshot;
}
count_sequence topic p c d = if is_snapshot topic then count_topic topic (λ m. m) d else elim p [
  | gap _ missing ↦ record (count_topic topic (λ m. record m { gaps = m.gaps + 1 }) d) {
    gaps = d.gaps + 1;
    lost = d.lost + missing;
  }
  | behind _ ↦ record (count_topic topic (λ m. record m { resets = m.resets + 1 }) d) {
    resets = d.resets + 1;
  }
  | _ ↦ count_topic topic (λ m. m) d
]

unfoldable pub count_duplicate : Topic → Clock → Diagnostics → Diagnostics
unfolding count_topic
count_duplicate topic c d = record_duration c (
    count_topic topic (λ m. record m { rejected = m.rejected + 1 })
      (record d { rejected = d.rejected + 1 }))

abbrev pub finish_snapshot : Envelope → Clock → Option ℕ → Diagnostics → Diagnostics
finish_snapshot e c none d = record d { pending_snapshot = none; last_player_count = e.players }
finish_snapshot e c (some began) d = record d {
  pending_snapshot = none;
  snapshots = d.snapshots + 1;
  snapshot_total = d.snapshot_total + (c.snapshot - began);
  snapshot_max = max d.snapshot_max (c.snapshot - began);
  last_player_count = e.players;
}

abbrev pub count_content : Topic → Envelope → Clock → Diagnostics → Diagnostics
count_content blocks_changed e c d = record d {
  batches = d.batches + 1;
  blocks_declared = d.blocks_declared + (e.broken_total + e.placed_total);
  max_blocks_declared = max d.max_blocks_declared (e.broken_total + e.placed_total);
}
count_content snapshot_finished e c d = finish_snapshot e c d.pending_snapshot d
count_content _ e c d = d

unfoldable pub count_accepted : Envelope → Clock → Diagnostics → Diagnostics
unfolding count_topic
count_accepted e c d = record_duration c (
    count_content e.topic e c (
      count_topic e.topic (λ m. record m { accepted = m.accepted + 1 })
        (record d { accepted = d.accepted + 1 })))

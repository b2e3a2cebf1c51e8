-- ===== src/Telemetry/Scenarios.antt =====
-- Concrete envelopes, and the theorems at them.
use craftcontrol.Base.{
  ℕ, zero, suc, ◌+◌, ◌≡◌, refl, true, false, Option, none, some, List, [], ◌∷◌, String,
}
use craftcontrol.Telemetry.{
  Topic, started, blocks_changed, snapshot_started, snapshot_finished, Envelope, State, Storage,
  Service, Clock, Diagnostics, healthy, degraded,
}
use craftcontrol.Telemetry.Ingest.{Texts, ingest_all}
use craftcontrol.Telemetry.Blocked.{IsHonest, ingest_all-IsHonest}
use craftcontrol.Telemetry.Sequence.{IsAccounted, ingest_all-IsAccounted}

-- The text of a number up to nine.
abbrev digit : ℕ → String
digit zero = "0"
digit (suc zero) = "1"
digit (suc (suc zero)) = "2"
digit (suc (suc (suc zero))) = "3"
digit (suc (suc (suc (suc n)))) = "more"

abbrev texts : Texts
texts = record { str = digit; error = λ p n. "sequence" }

abbrev at : ℕ → Clock
at n = record { wall = n; start = n; snapshot = n; end = n + 1 }

abbrev envelope : Topic → ℕ → Envelope
envelope topic n = record {
  topic = topic;
  sequence = n;
  schema = "1";
  timestamp = none;
  player = some "ana";
  victim = none;
  killer = none;
  version = none;
  storage = none;
  capabilities = none;
  metrics = none;
  broken_total = 2;
  placed_total = 1;
  players = none;
}

abbrev new_state : Option ℕ → State
new_state n = record {
  status = healthy;
  sequence = n;
  expected_sequence = 0;
  schema = "1";
  last_topic = none;
  last_event_at = 0;
  pack_version = none;
  storage_version = "";
  storage_status = "";
  storage_migrated_from = "";
  persistence_blocked = false;
  capabilities = [];
  is_full = false;
  capabilities_supported = 0;
  capabilities_total = 0;
  metrics = none;
  snapshot_started_at = none;
  last_snapshot_at = none;
  gap_count = 0;
  missing_events = 0;
  last_gap = none;
  reset_count = 0;
  last_error = "";
}

abbrev no_diagnostics : Diagnostics
no_diagnostics = record {
  accepted = 0;
  rejected = 0;
  duplicates = 0;
  old = 0;
  attempted = 0;
  duration_total = 0;
  duration_max = 0;
  by_topic = [];
  lost = 0;
  gaps = 0;
  resets = 0;
  batches = 0;
  blocks_declared = 0;
  max_blocks_declared = 0;
  snapshots = 0;
  snapshot_total = 0;
  snapshot_max = 0;
  last_player_count = none;
  pending_snapshot = none;
}

abbrev service_at : Option ℕ → Service
service_at n = record {
  state = new_state n;
  events = [];
  diagnostics = no_diagnostics;
  published = [];
  requested = [];
}

-- The next number, the same again, and one after a gap of four.
abbrev with_gap : List (Clock × Envelope)
with_gap =
    (at 1, envelope blocks_changed 1)
    ∷ (at 2, envelope blocks_changed 1)
    ∷ (at 3, envelope blocks_changed 6)
    ∷ []

with_gap_missing : (ingest_all texts with_gap (service_at (some 0))).state.missing_events ≡ 4
unfolding ingest_all
with_gap_missing = refl

ingest_all-IsAccounted_example :
    IsAccounted 0 (service_at (some 0)) (ingest_all texts with_gap (service_at (some 0)))
ingest_all-IsAccounted_example =
    ingest_all-IsAccounted texts with_gap 0 (service_at (some 0)) (refl, (refl, (refl, tt))) refl

abbrev full_disk : Storage
full_disk = record {
  version = "2";
  status = some "blocked";
  persistence_blocked = true;
  migrated_from = none;
  error = none;
}

-- The pack reports a blocked storage, and a snapshot goes through.
abbrev with_blocked : List (Clock × Envelope)
with_blocked =
    (at 1, record (envelope started 1) { storage = some full_disk })
    ∷ (at 2, envelope snapshot_started 2)
    ∷ (at 3, envelope snapshot_finished 3)
    ∷ []

with_blocked_status : (ingest_all texts with_blocked (service_at none)).state.status ≡ degraded
unfolding ingest_all
with_blocked_status = refl

ingest_all-IsHonest_example : IsHonest (ingest_all texts with_blocked (service_at none)).state
ingest_all-IsHonest_example = ingest_all-IsHonest texts with_blocked (service_at none) (λ k. cc)

-- After the pack has started again, its second envelope has the number, the topic and the player of
-- one before, and is refused as known.
abbrev with_restart : List (Clock × Envelope)
with_restart =
    (at 1, envelope started 1)
    ∷ (at 2, envelope blocks_changed 2)
    ∷ (at 3, envelope blocks_changed 3)
    ∷ (at 4, record (envelope started 1) { timestamp = some "later" })
    ∷ (at 5, envelope blocks_changed 2)
    ∷ []

with_restart_lost :
    ((ingest_all texts with_restart (service_at none)).diagnostics.rejected ≡ 1)
    × ((ingest_all texts with_restart (service_at none)).state.sequence ≡ some 1)
unfolding ingest_all
with_restart_lost = (refl, refl)

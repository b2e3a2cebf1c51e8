-- ===== src/Telemetry/Updates.antt =====
-- telemetry/service.py: what the parts of an update do to the status, the sequence and the missing
-- events.
use craftcontrol.Base.{
  ℕ, ◌+◌, ◌≡◌, refl, Bool, true, false, Option, none, some, List, [], ◌∷◌, String, arith,
}
use craftcontrol.Base.Dict.{Dict}
use craftcontrol.Telemetry.{
  Topic, Envelope, Storage, State, Status, syncing, degraded, Place, is_blocked, base_updates,
  with_version, with_storage, with_capabilities, with_metrics, sequence_updates, snapshot_updates,
  started, joined,
}

abbrev pub is_troubled : Status → Bool
is_troubled syncing = true
is_troubled degraded = true
is_troubled _ = false

abbrev pub knows : Option Storage → Bool → Bool
knows none b = b
knows (some g) b = is_blocked (some g)

-- What the updates that every envelope makes leave and set.
pub record Bases (e : Envelope) (s s' : State) : Type 0 where
  pub status : s'.status ≡ s.status
  pub missing : s'.missing_events ≡ s.missing_events
  pub sequence : s'.sequence ≡ some e.sequence
  pub blocked : s'.persistence_blocked ≡ knows e.storage s.persistence_blocked

Metrics-same :
    (e : Envelope) (m : Option (Dict Bool)) (s s' : State)
    → Bases e s s'
    → Bases e s (with_metrics m s')
Metrics-same e none s s' h = h
Metrics-same e (some m) s s' h = record {
  status = h.status;
  missing = h.missing;
  sequence = h.sequence;
  blocked = h.blocked;
}

Capabilities-same :
    (e : Envelope) (m : Option (List Bool)) (s s' : State)
    → Bases e s s'
    → Bases e s (with_capabilities m s')
Capabilities-same e none s s' h = h
Capabilities-same e (some []) s s' h = h
Capabilities-same e (some (c ∷ cs)) s s' h = record {
  status = h.status;
  missing = h.missing;
  sequence = h.sequence;
  blocked = h.blocked;
}

abbrev numbered : ℕ → Envelope → State → State
numbered wall e s = record s {
  schema = e.schema;
  sequence = some e.sequence;
  expected_sequence = e.sequence + 1;
  last_topic = some e.topic;
  last_event_at = wall;
}

-- The version is only read of the envelope that starts the pack.
record Versions (e : Envelope) (s s' : State) : Type 0 where
  status : s'.status ≡ s.status
  missing : s'.missing_events ≡ s.missing_events
  sequence : s'.sequence ≡ some e.sequence
  blocked : s'.persistence_blocked ≡ s.persistence_blocked

Version-same :
    (wall : ℕ) (e : Envelope) (t : Topic) (v : Option String) (s : State)
    → Versions e s (with_version t v (numbered wall e s))
Version-same wall e started none s = record {
  status = refl;
  missing = refl;
  sequence = refl;
  blocked = refl;
}
Version-same wall e started (some v) s = record {
  status = refl;
  missing = refl;
  sequence = refl;
  blocked = refl;
}
Version-same wall e joined v s = record {
  status = refl;
  missing = refl;
  sequence = refl;
  blocked = refl;
}
Version-same wall e t v s = record {
  status = refl;
  missing = refl;
  sequence = refl;
  blocked = refl;
}

Storage-same :
    (e : Envelope) (g : Option Storage) (s s' : State)
    → g ≡ e.storage
    → Versions e s s'
    → Bases e s (with_storage g s')
Storage-same e none s s' q h = record {
  status = h.status;
  missing = h.missing;
  sequence = h.sequence;
  blocked = rw (← q) h.blocked;
}
Storage-same e (some g) s s' q h = record {
  status = h.status;
  missing = h.missing;
  sequence = h.sequence;
  blocked = rw (← q) refl;
}

pub base_updates-Bases : (wall : ℕ) (e : Envelope) (s : State) → Bases e s (base_updates wall e s)
unfolding base_updates
base_updates-Bases wall e s = Metrics-same e e.metrics s _ (
    Capabilities-same e e.capabilities s _
      (Storage-same e e.storage s _ refl (Version-same wall e e.topic e.version s)))

module _ (error : Place → ℕ → String) (wall : ℕ) (blocked : Bool) (e : Envelope) where
  pub sequence_updates-blocked :
      (known : Bool) (p : Place) (s : State)
      → (sequence_updates error wall blocked known e p s).persistence_blocked
        ≡ s.persistence_blocked
  unfolding sequence_updates snapshot_updates
  sequence_updates-blocked known p s = ground arith

  pub sequence_updates-sequence :
      (known : Bool) (p : Place) (s : State)
      → (sequence_updates error wall blocked known e p s).sequence ≡ s.sequence
  unfolding sequence_updates snapshot_updates
  sequence_updates-sequence known p s = ground arith

  -- Trouble ends only with a snapshot of a storage that is not known to be blocked.
  pub sequence_updates-troubled :
      (known : Bool) (p : Place) (s : State)
      → known ≡ true
      → is_troubled s.status ≡ true
      → is_troubled (sequence_updates error wall blocked known e p s).status ≡ true
  unfolding sequence_updates snapshot_updates
  sequence_updates-troubled known p s k h = ground (arith, h, k)

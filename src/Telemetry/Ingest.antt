-- ===== src/Telemetry/Ingest.antt =====
-- telemetry/service.py: `ingest`, with the event table of telemetry/repository.py.
use craftcontrol.Base.{
  ℕ, zero, suc, ◌-◌, Bool, true, false, ◌||◌, Option, none, some, List, [], ◌∷◌, ◌++◌, String,
  concat, str_eq, if◌then◌else◌, any, length,
}
use craftcontrol.Telemetry.{
  Topic, started, respawned, dimension_changed, died, blocks_changed, items_used,
  interactions_changed, snapshot_player, snapshot_finished, topic_text, is_snapshot, is_started,
  Envelope, State, Published, sequence_rejected, ingested, state_changed, reconciliation_required,
  Service, Clock, or_text, is_blocked, Place, place, resync, base_updates, sequence_updates,
  blocked_updates, is_refused, last_of, count_refused, count_sequence, count_duplicate,
  count_accepted,
}

-- Python's text of a number, and the texts of the errors on the sequence.
pub record Texts : Type 0 where
  pub str : ℕ → String
  pub error : Place → ℕ → String

abbrev pub replay_identity : Envelope → String
replay_identity e =
    if is_snapshot e.topic || is_started e.topic then concat ":" (or_text e.timestamp "-") else ""

-- The key of an envelope in `telemetry_events`.
unfoldable pub event_key : (ℕ → String) → Envelope → String
unfolding topic_text
event_key str e = concat (str e.sequence) (
    concat ":" (
      concat (topic_text e.topic) (concat ":" (concat (or_text e.player "-") (replay_identity e)))))

unfoldable pub drop_oldest : ℕ → List String → List String
drop_oldest zero ks = ks
drop_oldest (suc n) [] = []
drop_oldest (suc n) (k ∷ ks) = drop_oldest n ks

abbrev pub one : Option String → List String
one none = []
one (some name) = name ∷ []

-- `list(dict.fromkeys(…))` of the victim and the killer
abbrev pub distinct_pair : Option String → Option String → List String
distinct_pair (some v) (some k) = if str_eq v k then v ∷ [] else v ∷ k ∷ []
distinct_pair v none = one v
distinct_pair none k = one k

-- The players whose tables the envelope changes.
unfoldable pub changed_players : Topic → Envelope → List String
changed_players snapshot_player e = one e.player
changed_players blocks_changed e = one e.player
changed_players items_used e = one e.player
changed_players interactions_changed e = one e.player
changed_players respawned e = one e.player
changed_players dimension_changed e = one e.player
changed_players died e = distinct_pair e.victim e.killer
changed_players _ e = []

-- The first part of `ingest_telemetry`: `none` if the key is known. The rows stand in the order of
-- `received_at`.
unfoldable pub insert_event : String → List String → Option (List String)
unfolding drop_oldest
insert_event key ks =
    if any (str_eq key) ks
    then none
    else some (drop_oldest (length (ks ++ key ∷ []) - 10000) (ks ++ key ∷ []))

abbrev pub is_announced : Topic → List String → Bool
is_announced snapshot_finished names = true
is_announced started names = true
is_announced _ [] = false
is_announced _ (_ ∷ _) = true

abbrev pub announced : Envelope → List String → Option String → List Published
announced e names reason =
    ingested e.topic names e.sequence
    ∷ ((if is_announced e.topic names then state_changed names ∷ [] else [])
        ++ elim reason [ none ↦ [] | some r ↦ reconciliation_required r e.sequence ∷ [] ])

module _ (texts : Texts) where
  -- The state that an accepted envelope stores.
  unfoldable pub next_state : ℕ → Envelope → Place → State → State
  unfolding base_updates sequence_updates
  next_state wall e p s =
      let blocked = is_blocked e.storage in
      blocked_updates e.storage blocked (
        sequence_updates texts.error wall blocked (blocked || s.persistence_blocked) e p
          (base_updates wall e s))

  abbrev pub store_accepted : Clock → Envelope → Place → Option (List String) → Service → Service
  store_accepted c e p none s = record s {
    diagnostics = count_duplicate e.topic c (count_sequence e.topic p c s.diagnostics);
  }
  store_accepted c e p (some ks) s =
      let names = changed_players e.topic e in
      let reason = resync e.topic p in
      record s {
        state = next_state c.wall e p s.state;
        events = ks;
        diagnostics = count_accepted e c (count_sequence e.topic p c s.diagnostics);
        published = s.published ++ announced e names reason;
        requested = s.requested ++ one reason;
      }

  unfoldable pub ingest : Clock → Envelope → Service → Service
  unfolding place event_key changed_players insert_event next_state count_refused count_sequence
      count_duplicate count_accepted
  ingest c e s =
      let p = place s.state.sequence e.sequence in
      if is_refused e.topic p
      then record s {
        diagnostics = count_refused e.topic p c s.diagnostics;
        published = s.published ++ sequence_rejected e.sequence (last_of p) e.topic ∷ [];
      }
      else store_accepted c e p (insert_event (event_key texts.str e) s.events) s

  unfoldable pub ingest_all : List (Clock × Envelope) → Service → Service
  unfolding ingest
  ingest_all [] s = s
  ingest_all ((c, e) ∷ es) s = ingest_all es (ingest c e s)

-- ===== src/Telemetry/Blocked.antt =====
-- telemetry/service.py: a pack that cannot keep its data is not reported as healthy.
use craftcontrol.Base.{
  ℕ, ◌≡◌, refl, ◌∙◌, true, ◌||◌, Option, none, some, List, [], ◌∷◌, arith, inl, inr, Bool-cases,
  Option-cases,
}
use craftcontrol.Telemetry.{
  Envelope, Storage, State, Service, Clock, Place, place, is_refused, is_blocked, base_updates,
  blocked_updates,
}
use craftcontrol.Telemetry.Updates.{
  is_troubled, knows, base_updates-Bases, sequence_updates-blocked, sequence_updates-troubled,
}
use craftcontrol.Telemetry.Ingest.{Texts, next_state, ingest, ingest_all, insert_event, event_key}

-- A state that knows of a blocked storage says that the telemetry is degraded or synchronising.
abbrev pub IsHonest : State → Type 0
IsHonest s = s.persistence_blocked ≡ true → is_troubled s.status ≡ true

blocked_updates-IsHonest :
    (g : Option Storage) (s s' : State)
    → s'.persistence_blocked ≡ knows g s.persistence_blocked
    → (g ≡ none → s.persistence_blocked ≡ true → is_troubled s'.status ≡ true)
    → IsHonest (blocked_updates g (is_blocked g) s')
blocked_updates-IsHonest none s s' b t k = t refl (ground (arith, b, k))
blocked_updates-IsHonest (some g) s s' b t k = ground (arith, b, k)

next_state-IsHonest :
    (x : Texts) (wall : ℕ) (e : Envelope) (p : Place) (s : State)
    → IsHonest s
    → IsHonest (next_state x wall e p s)
unfolding next_state
next_state-IsHonest x wall e p s h =
    let bases = base_updates-Bases wall e s in
    blocked_updates-IsHonest e.storage s _
      (sequence_updates-blocked x.error wall (is_blocked e.storage) e
          (is_blocked e.storage || s.persistence_blocked) p (base_updates wall e s)
        ∙ bases.blocked)
      (λ _ knew.
        sequence_updates-troubled x.error wall (is_blocked e.storage) e
          (is_blocked e.storage || s.persistence_blocked) p (base_updates wall e s)
          (ground (arith, knew)) (ground (arith, bases.status, h knew)))

ingest-IsHonest :
    (x : Texts) (c : Clock) (e : Envelope) (s : Service)
    → IsHonest s.state
    → IsHonest (ingest x c e s).state
unfolding ingest
ingest-IsHonest x c e s h =
    let p = place s.state.sequence e.sequence in
    elim (Bool-cases (is_refused e.topic p)) [
      | inl refused ↦ rw (refused, ingest) h
      | inr tried ↦ elim (Option-cases (insert_event (event_key x.str e) s.events)) [
        | inl known ↦ rw (tried, known, ingest) h
        | inr (ks, new) ↦ rw (tried, new, ingest) (next_state-IsHonest x c.wall e p s.state h)
      ]
    ]

-- Whatever envelopes come, in whatever order and at whatever times: a state that knows of a blocked
-- storage of the pack keeps saying that the telemetry is degraded or synchronising, and never that it
-- is healthy, until an envelope says that the storage is not blocked.
pub ingest_all-IsHonest :
    (x : Texts) (es : List (Clock × Envelope)) (s : Service)
    → IsHonest s.state
    → IsHonest (ingest_all x es s).state
unfolding ingest_all
ingest_all-IsHonest x [] s h = h
ingest_all-IsHonest x ((c, e) ∷ es) s h =
    ingest_all-IsHonest x es (ingest x c e s) (ingest-IsHonest x c e s h)

-- ===== src/Telemetry/Sequence.antt =====
-- telemetry/service.py: every number of the sequence is accounted for.
use craftcontrol.Base.{
  ℕ, ◌+◌, ◌≡◌, refl, Bool, true, false, ◌||◌, Option, some, List, [], ◌∷◌, arith, inl, inr,
  Bool-cases, Option-cases, if◌then◌else◌,
}
use craftcontrol.Telemetry.{
  Topic, Envelope, State, Service, Clock, Place, place, gap, is_snapshot, is_started, is_refused,
  is_blocked, base_updates, sequence_updates, snapshot_updates,
}
use craftcontrol.Telemetry.Updates.{base_updates-Bases, sequence_updates-sequence}
use craftcontrol.Telemetry.Counts.{count_refused-More, duplicate-More, accepted-More}
use craftcontrol.Telemetry.Ingest.{Texts, next_state, ingest, ingest_all, insert_event, event_key}

-- An envelope of neither a snapshot nor the start of the pack.
abbrev pub is_ordinary : Envelope → Bool
is_ordinary e = if is_snapshot e.topic then false else if is_started e.topic then false else true

abbrev pub AllOrdinary : List (Clock × Envelope) → Type 0
AllOrdinary [] = Unit {0}
AllOrdinary ((c, e) ∷ es) = (is_ordinary e ≡ true) × AllOrdinary es

-- The numbers that a place skips.
abbrev skipped : Place → ℕ
skipped (gap last missing) = missing
skipped _ = 0

sequence_updates-missing :
    (error : Place → ℕ → _) (wall : ℕ) (blocked known : Bool) (e : Envelope) (p : Place) (s : State)
    → is_ordinary e ≡ true
    → (sequence_updates error wall blocked known e p s).missing_events
      ≡ s.missing_events + skipped p
unfolding sequence_updates snapshot_updates
sequence_updates-missing error wall blocked known e p s o = ground (arith, o)

-- The numbers that a number above the last one skips.
place-skipped :
    (o : Option ℕ) (last n : ℕ) (t : Topic)
    → o ≡ some last
    → is_refused t (place o n) ≡ false
    → is_snapshot t ≡ false
    → is_started t ≡ false
    → n ≡ last + 1 + skipped (place o n)
unfolding place
place-skipped o last n t q r a b = rw q (ground (arith, rw q at r, a, b))

next_state-sequence :
    (x : Texts) (wall : ℕ) (e : Envelope) (p : Place) (s : State)
    → (next_state x wall e p s).sequence ≡ some e.sequence
unfolding next_state
next_state-sequence x wall e p s = ground (
  arith,
  (base_updates-Bases wall e s).sequence,
  sequence_updates-sequence x.error wall (is_blocked e.storage) e
      (is_blocked e.storage || s.persistence_blocked) p (base_updates wall e s),
)

next_state-missing :
    (x : Texts) (wall : ℕ) (e : Envelope) (p : Place) (s : State)
    → is_ordinary e ≡ true
    → (next_state x wall e p s).missing_events ≡ s.missing_events + skipped p
unfolding next_state
next_state-missing x wall e p s o = ground (
  arith,
  (base_updates-Bases wall e s).missing,
  sequence_updates-missing x.error wall (is_blocked e.storage)
      (is_blocked e.storage || s.persistence_blocked) e p (base_updates wall e s) o,
)

-- The last number of the sequence, and the balance of the numbers.
pub record IsAccounted (last : ℕ) (s s' : Service) : Type 0 where
  pub last' : ℕ
  pub sequence : s'.state.sequence ≡ some last'
  pub accounted :
      last' + s.diagnostics.accepted + s.state.missing_events
      ≡ last + s'.diagnostics.accepted + s'.state.missing_events
  pub tallied :
      s'.diagnostics.attempted + s.diagnostics.accepted + s.diagnostics.rejected
      ≡ s.diagnostics.attempted + s'.diagnostics.accepted + s'.diagnostics.rejected

ingest-IsAccounted :
    (x : Texts) (c : Clock) (e : Envelope) (last : ℕ) (s : Service)
    → is_ordinary e ≡ true
    → s.state.sequence ≡ some last
    → IsAccounted last s (ingest x c e s)
unfolding ingest
ingest-IsAccounted x c e last s o q =
    let p = place s.state.sequence e.sequence in
    (elim (Bool-cases (is_refused e.topic p)) [
      | inl refused ↦ rw refused (record {
        last' = last;
        sequence = q;
        accounted = ground (arith, count_refused-More e.topic p c s.diagnostics);
        tallied = ground (arith, count_refused-More e.topic p c s.diagnostics);
      })
      | inr tried ↦ elim (Option-cases (insert_event (event_key x.str e) s.events)) [
        | inl known ↦
            rw (tried, known, ingest)
              (record {
                last' = last;
                sequence = q;
                accounted = ground (arith, duplicate-More e.topic p c s.diagnostics);
                tallied = ground (arith, duplicate-More e.topic p c s.diagnostics);
              })
        | inr (ks, new) ↦
            rw (tried, new, ingest)
              (record {
                last' = e.sequence;
                sequence = next_state-sequence x c.wall e p s.state;
                accounted = ground (
                  arith,
                  accepted-More e p c s.diagnostics,
                  next_state-missing x c.wall e p s.state o,
                  place-skipped s.state.sequence last e.sequence e.topic q tried (ground (arith, o))
                      (ground (arith, o)),
                );
                tallied = ground (arith, accepted-More e p c s.diagnostics);
              })
      ]
    ])

-- From a stored sequence, whatever envelopes come that belong to neither a snapshot nor a start of the
-- pack, in whatever order: the numbers between the stored sequence and the last one are those that
-- were accepted and those that are counted as missing, together; and every envelope that was
-- attempted was accepted or rejected.
pub ingest_all-IsAccounted :
    (x : Texts) (es : List (Clock × Envelope)) (last : ℕ) (s : Service)
    → AllOrdinary es
    → s.state.sequence ≡ some last
    → IsAccounted last s (ingest_all x es s)
unfolding ingest_all
ingest_all-IsAccounted x [] last s a q = record {
  last' = last;
  sequence = q;
  accounted = refl;
  tallied = refl;
}
ingest_all-IsAccounted x ((c, e) ∷ es) last s a q =
    let one = ingest-IsAccounted x c e last s a.0 q in
    let rest = ingest_all-IsAccounted x es one.last' (ingest x c e s) a.1 one.sequence in
    record {
      last' = rest.last';
      sequence = rest.sequence;
      accounted = omega (arith, one.accounted, rest.accounted);
      tallied = omega (arith, one.tallied, rest.tallied);
    }

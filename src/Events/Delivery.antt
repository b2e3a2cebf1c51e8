-- ===== src/Events/Delivery.antt =====
-- core/events.py: what a live stream yields.
use mathlib.Core.Path.{subst}
use mathlib.Core.List.{append-nil, append_assoc}
use craftcontrol.Base.{
  ℕ, ◌+◌, ◌≤◌, ◌≡◌, refl, sym, ap, ◌∙◌, Bool, true, false, some, List, [], ◌∷◌, ◌++◌, String, arith,
  inl, inr, Bool-cases, leb, ltb, length, length-append, ◌==◌,
}
use craftcontrol.Base.Dict.{Dict}
use craftcontrol.Base.Value.{Value}
use craftcontrol.Events.Positions.{nth-map, nth-append, nth-modify_at, nth-modify_at_other}
use craftcontrol.Events.{
  Event, live, Stream, Broker, accept, resume, resume_phase, modify_at, nth, shut, is_open,
  record_event, offer, stream, close, events_after, accept_phase, fresh, Step, step, steps,
  to_record, to_offer, to_stream, to_resume, to_close,
}

-- The events that the steps offer, and whether they close the stream of an index.
unfoldable pub offered : List Step → List Event
offered [] = []
offered (to_offer e ∷ ss) = e ∷ offered ss
offered (_ ∷ ss) = offered ss

abbrev pub closes : ℕ → Step → Bool
closes i (to_close j) = i == j
closes i _ = false

abbrev pub KeepsOpen : ℕ → List Step → Type 0
KeepsOpen i [] = Unit
KeepsOpen i (s ∷ ss) = (closes i s ≡ false) × KeepsOpen i ss

-- The stream of the index is live with the queue, and has yielded the events.
pub record IsLive (i : ℕ) (yielded queue : List Event) (b : Broker) : Type 0 where
  pub subscription : Stream
  pub found : nth i b.streams ≡ some subscription
  pub phase : subscription.phase ≡ live queue
  pub output : subscription.yielded ≡ yielded

-- What a live stream has yielded and what it holds, after steps that offer the events.
pub record IsDelivered (i : ℕ) (sent : List Event) (room : ℕ) (b : Broker) : Type 0 where
  pub yielded : List Event
  pub queue : List Event
  pub is_live : IsLive i yielded queue b
  pub complete : yielded ++ queue ≡ sent
  pub holds : length queue ≤ room

-- A live stream that goes on yields the head of its queue, if there is one.
resume-live :
    (rows : ℕ → List Event) (s : Stream) (queue : List Event)
    → s.phase ≡ live queue
    → (yielded' queue' : List Event) × ((resume rows s).phase ≡ live queue')
      × ((resume rows s).yielded ≡ yielded')
      × (yielded' ++ queue' ≡ s.yielded ++ queue)
      × (length queue' ≤ length queue)
unfolding resume
resume-live rows s [] p =
    (s.yielded, [], rw (p, resume_phase) refl, rw (p, resume_phase) refl, refl, ground arith)
resume-live rows s (e ∷ q) p = (
  s.yielded ++ e ∷ [],
  q,
  rw (p, resume_phase) refl,
  rw (p, resume_phase) refl,
  append_assoc s.yielded (e ∷ []) q,
  ground arith,
)

resume-IsDelivered :
    (i j : ℕ) (b : Broker) (yielded queue : List Event)
    → IsLive i yielded queue b
    → IsDelivered i (yielded ++ queue) (length queue) (step (to_resume j) b)
unfolding step
resume-IsDelivered i j b ys qs h = elim (Bool-cases (i == j)) [
  | inr other ↦ record {
    yielded = ys;
    queue = qs;
    is_live = record {
      subscription = h.subscription;
      found = nth-modify_at_other _ i j b.streams h.subscription other h.found;
      phase = h.phase;
      output = h.output;
    };
    complete = refl;
    holds = ground arith;
  }
  | inl same ↦
      let rows : ℕ → List Event = λ id. events_after id b in
      let (ys', qs', phase, output, e, l) = resume-live rows h.subscription qs h.phase in
      let ij : i ≡ j = ground (arith, same) in
      record {
        yielded = ys';
        queue = qs';
        is_live = record {
          subscription = resume rows h.subscription;
          found =
              subst
                (λ k.
                  nth i (modify_at k (resume rows) b.streams) ≡ some (resume rows h.subscription))
                ij (nth-modify_at (resume rows) i b.streams h.subscription h.found);
          phase = phase;
          output = output;
        };
        complete = e ∙ ap (λ ys. ys ++ qs) h.output;
        holds = l;
      }
]

kept :
    (i : ℕ) (b : Broker) (yielded queue : List Event)
    → IsLive i yielded queue b
    → IsDelivered i (yielded ++ queue) (length queue) b
kept i b ys qs h = record {
  yielded = ys;
  queue = qs;
  is_live = h;
  complete = refl;
  holds = ground arith;
}

-- A stream that stands where it stood, in another broker.
moved :
    (i : ℕ) (b b' : Broker) (yielded queue : List Event) (h : IsLive i yielded queue b)
    → nth i b'.streams ≡ some h.subscription
    → IsLive i yielded queue b'
moved i b b' ys qs h found = record {
  subscription = h.subscription;
  found = found;
  phase = h.phase;
  output = h.output;
}

record_event-IsDelivered :
    (topic source : String) (payload : Dict Value) (t i : ℕ) (b : Broker)
    (yielded queue : List Event)
    → IsLive i yielded queue b
    → IsDelivered i (yielded ++ queue) (length queue) (step (to_record topic source payload t) b)
unfolding step record_event
record_event-IsDelivered topic source payload t i b ys qs h =
    kept i _ ys qs (moved i b _ ys qs h h.found)

stream-IsDelivered :
    (id i : ℕ) (b : Broker) (yielded queue : List Event)
    → IsLive i yielded queue b
    → IsDelivered i (yielded ++ queue) (length queue) (step (to_stream id) b)
unfolding step stream
stream-IsDelivered id i b ys qs h = elim (Bool-cases (leb b.max_connections b.active)) [
  | inl full ↦ rw full (kept i b ys qs h)
  | inr room ↦ rw room (
      kept i _ ys qs
        (moved i b _ ys qs h (nth-append i b.streams h.subscription (fresh id) h.found)))
]

close-IsDelivered :
    (j i : ℕ) (b : Broker) (yielded queue : List Event)
    → (i == j) ≡ false
    → IsLive i yielded queue b
    → IsDelivered i (yielded ++ queue) (length queue) (step (to_close j) b)
unfolding step close
close-IsDelivered j i b ys qs other h = elim (Bool-cases (is_open (nth j b.streams))) [
  | inr shut_before ↦ rw shut_before (kept i b ys qs h)
  | inl was_open ↦ rw was_open (
      kept i _ ys qs
        (moved i b _ ys qs h (nth-modify_at_other shut i j b.streams h.subscription other h.found)))
]

offer-IsLive :
    (e : Event) (i : ℕ) (b : Broker) (yielded queue : List Event)
    → IsLive i yielded queue b
    → length queue + 1 ≤ 100
    → IsLive i yielded (queue ++ e ∷ []) (step (to_offer e) b)
unfolding step offer
offer-IsLive e i b ys qs h room =
    let free : ltb (length qs) 100 ≡ true = ground (arith, room) in
    record {
      subscription = accept e h.subscription;
      found = nth-map (accept e) i b.streams h.subscription h.found;
      phase = ap (accept_phase e) h.phase ∙ rw free refl;
      output = h.output;
    }

module _ (i : ℕ) where
  continue :
      (ss : List Step) (b : Broker) (sent : List Event) (room : ℕ)
      → ((ys qs : List Event)
          → IsLive i ys qs b
          → length qs + length (offered ss) ≤ 100
          → IsDelivered i (ys ++ qs ++ offered ss) 100 (steps ss b))
      → IsDelivered i sent room b
      → room + length (offered ss) ≤ 100
      → IsDelivered i (sent ++ offered ss) 100 (steps ss b)
  continue ss b sent room rest d l =
      subst (λ x. IsDelivered i (x ++ offered ss) 100 (steps ss b)) d.complete
        (rest d.yielded d.queue d.is_live (ground (arith, l, d.holds)))

  -- A live stream loses no event that is offered to it while it is open and its queue has room for
  -- them: after any interleaving of steps that do not close it, what it has yielded, followed by what
  -- its queue holds, is what it had yielded, what its queue held, and the events offered since, in
  -- the order of the offers, and it is still live. The queue has room for all of them when the events
  -- that it held and those offered are at most 100.
  pub steps-IsDelivered :
      (ss : List Step) (b : Broker) (yielded queue : List Event)
      → IsLive i yielded queue b
      → KeepsOpen i ss
      → length queue + length (offered ss) ≤ 100
      → IsDelivered i (yielded ++ queue ++ offered ss) 100 (steps ss b)
  unfolding steps offered
  steps-IsDelivered [] b ys qs h n l = record {
    yielded = ys;
    queue = qs;
    is_live = h;
    complete = sym (append-nil (ys ++ qs));
    holds = ground (arith, l);
  }
  steps-IsDelivered (to_record topic source payload t ∷ ss) b ys qs h n l =
      continue ss _ _ _ (λ ys' qs' h' l'. steps-IsDelivered ss _ ys' qs' h' n.1 l')
        (record_event-IsDelivered topic source payload t i b ys qs h) l
  steps-IsDelivered (to_offer e ∷ ss) b ys qs h n l =
      subst (λ x. IsDelivered i x 100 (steps ss (step (to_offer e) b)))
        (ap (λ x. x ++ offered ss) (sym (append_assoc ys qs (e ∷ [])))
          ∙ append_assoc (ys ++ qs) (e ∷ []) (offered ss))
        (steps-IsDelivered ss (step (to_offer e) b) ys (qs ++ e ∷ [])
          (offer-IsLive e i b ys qs h (ground (arith, l))) n.1
          (ground (arith, l, length-append qs (e ∷ []))))
  steps-IsDelivered (to_stream id ∷ ss) b ys qs h n l =
      continue ss _ _ _ (λ ys' qs' h' l'. steps-IsDelivered ss _ ys' qs' h' n.1 l')
        (stream-IsDelivered id i b ys qs h) l
  steps-IsDelivered (to_resume j ∷ ss) b ys qs h n l =
      continue ss _ _ _ (λ ys' qs' h' l'. steps-IsDelivered ss _ ys' qs' h' n.1 l')
        (resume-IsDelivered i j b ys qs h) l
  steps-IsDelivered (to_close j ∷ ss) b ys qs h n l =
      continue ss _ _ _ (λ ys' qs' h' l'. steps-IsDelivered ss _ ys' qs' h' n.1 l')
        (close-IsDelivered j i b ys qs n.0 h) l

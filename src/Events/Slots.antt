-- ===== src/Events/Slots.antt =====
-- core/events.py: the bounded pool of streams.
use craftcontrol.Base.{
  ℕ, zero, suc, ◌+◌, ◌≤◌, ◌≡◌, refl, sym, ◌∙◌, Bool, true, List, [], ◌∷◌, ◌++◌, map, arith, inl,
  inr, Bool-cases, leb, if◌then◌else◌,
}
use craftcontrol.Events.{
  Event, Stream, Broker, new_broker, fresh, accept, resume, modify_at, nth, shut, is_open,
  record_event, offer, stream, close, events_after, Step, step, steps, to_record, to_offer,
  to_stream, to_resume, to_close,
}

abbrev count_one : Bool → ℕ → ℕ
count_one closed n = if closed then n else n + 1

-- How many of the subscriptions are not closed.
unfoldable pub open_streams : List Stream → ℕ
open_streams [] = 0
open_streams (s ∷ ss) = count_one s.closed (open_streams ss)

-- The counter is the number of open subscriptions, and the pool is not exceeded.
pub record IsCounted (b : Broker) : Type 0 where
  pub counted : b.active ≡ open_streams b.streams
  pub bounded : b.active ≤ b.max_connections

open_streams-append :
    (ss : List Stream) (id : ℕ) → open_streams (ss ++ fresh id ∷ []) ≡ open_streams ss + 1
unfolding open_streams
open_streams-append [] id = refl
open_streams-append (s ∷ ss) id = ground (arith, open_streams-append ss id)

open_streams-accept :
    (e : Event) (ss : List Stream) → open_streams (map (accept e) ss) ≡ open_streams ss
unfolding open_streams
open_streams-accept e [] = refl
open_streams-accept e (s ∷ ss) = ground (arith, open_streams-accept e ss)

closed-resume : (rows : ℕ → List Event) (s : Stream) → (resume rows s).closed ≡ s.closed
unfolding resume
closed-resume rows s = ground arith

open_streams-resume :
    (rows : ℕ → List Event) (i : ℕ) (ss : List Stream)
    → open_streams (modify_at i (resume rows) ss) ≡ open_streams ss
unfolding open_streams modify_at
open_streams-resume rows i [] = refl
open_streams-resume rows zero (s ∷ ss) = rw (closed-resume rows s) refl
open_streams-resume rows (suc i) (s ∷ ss) = ground (arith, open_streams-resume rows i ss)

open_streams-shut :
    (i : ℕ) (ss : List Stream)
    → is_open (nth i ss) ≡ true
    → open_streams ss ≡ open_streams (modify_at i shut ss) + 1
unfolding open_streams modify_at nth
open_streams-shut i [] h = cc
open_streams-shut zero (s ∷ ss) h = ground (arith, h)
open_streams-shut (suc i) (s ∷ ss) h = ground (arith, open_streams-shut i ss h)

step-IsCounted : (s : Step) (b : Broker) → IsCounted b → IsCounted (step s b)
unfolding step record_event offer stream close
step-IsCounted (to_record topic source payload t) b h = record {
  counted = h.counted;
  bounded = h.bounded;
}
step-IsCounted (to_offer e) b h = record {
  counted = h.counted ∙ sym (open_streams-accept e b.streams);
  bounded = h.bounded;
}
step-IsCounted (to_resume i) b h = record {
  counted = h.counted ∙ sym (open_streams-resume (λ id. events_after id b) i b.streams);
  bounded = h.bounded;
}
step-IsCounted (to_stream id) b h = elim (Bool-cases (leb b.max_connections b.active)) [
  | inl full ↦ rw full h
  | inr room ↦ rw room record {
    counted = ground (arith, h.counted, open_streams-append b.streams id);
    bounded = ground (arith, room);
  }
]
step-IsCounted (to_close i) b h = elim (Bool-cases (is_open (nth i b.streams))) [
  | inr shut_before ↦ rw shut_before h
  | inl was_open ↦ rw was_open record {
    counted = ground (arith, h.counted, open_streams-shut i b.streams was_open);
    bounded = ground (arith, h.bounded);
  }
]

steps-IsCounted_from : (ss : List Step) (b : Broker) → IsCounted b → IsCounted (steps ss b)
unfolding steps
steps-IsCounted_from [] b h = h
steps-IsCounted_from (s ∷ ss) b h = steps-IsCounted_from ss (step s b) (step-IsCounted s b h)

-- After any interleaving of publications, new streams, their progress and closes, on a new broker,
-- the counter of the active streams is the number of subscriptions that are not closed, so that each
-- releases its slot once, and it is at most the limit of the broker.
pub steps-IsCounted : (limit : ℕ) (ss : List Step) → IsCounted (steps ss (new_broker limit))
unfolding open_streams
steps-IsCounted limit ss =
    steps-IsCounted_from ss (new_broker limit) (record { counted = refl; bounded = ground arith })

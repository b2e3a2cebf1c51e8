-- ===== src/Events.antt =====
-- apps/server/controlplane/src/core/events.py, and the event table of core/repository.py: events are
-- persisted and fanned out to bounded streams.
-- The threads interleave at the points where the code takes a lock, reads the table or waits: a
-- publication is the write of its row, then the offer to the streams that are live by then, which
-- puts the event into all their queues at once.
pub mod Slots
pub mod Positions
pub mod Delivery
mod Scenarios
use craftcontrol.Base.{
  ℕ, zero, suc, ◌+◌, ◌-◌, Bool, true, false, Option, none, some, List, [], ◌∷◌, ◌++◌, map, String,
  if◌then◌else◌, ltb, leb, length, not,
}
use craftcontrol.Base.Dict.{Dict, lookup, insert}
use craftcontrol.Base.Value.{Value}

pub record Event : Type 0 where
  pub id : ℕ
  pub topic : String
  pub timestamp : ℕ
  pub source : String
  pub payload : Dict Value

-- Where the generator of a stream stands: not started, with the events of its replay that are left,
-- with its queue, or closed.
pub data Phase : Type 0 where
  reserved : ℕ → Phase
  replaying live : List Event → Phase
  ended : Phase

-- A subscription, with what it has yielded; a heartbeat yields no event.
pub record Stream : Type 0 where
  pub phase : Phase
  pub closed : Bool
  pub yielded : List Event

pub record Broker : Type 0 where
  -- the rows of the table, by id, and the next id
  pub events : List Event
  pub next_id : ℕ
  pub topic_counts : Dict ℕ
  pub max_connections : ℕ
  pub active : ℕ
  pub total : ℕ
  pub reconnections : ℕ
  -- every subscription that was ever returned, in the order of `stream`
  pub streams : List Stream

abbrev pub new_broker : ℕ → Broker
new_broker limit = record {
  events = [];
  next_id = 1;
  topic_counts = [];
  max_connections = limit;
  active = 0;
  total = 0;
  reconnections = 0;
  streams = [];
}

unfoldable pub drop : ℕ → List Event → List Event
drop zero es = es
drop (suc n) [] = []
drop (suc n) (e ∷ es) = drop n es

unfoldable pub take : ℕ → List Event → List Event
take zero es = []
take (suc n) [] = []
take (suc n) (e ∷ es) = e ∷ take n es

-- `DELETE FROM events WHERE id NOT IN (… ORDER BY id DESC LIMIT 2000)`
abbrev pub retained : List Event → List Event
retained es = drop (length es - 2000) es

unfoldable pub later : ℕ → List Event → List Event
later id [] = []
later id (e ∷ es) = let rest = later id es in if ltb id e.id then e ∷ rest else rest

-- `events_after`, with its limit of 100
unfoldable pub events_after : ℕ → Broker → List Event
unfolding take later
events_after id b = take 100 (later id b.events)

-- The first part of `publish`: `record_event`
unfoldable pub record_event : String → String → Dict Value → ℕ → Broker → Broker × Event
unfolding drop
record_event topic source payload timestamp b =
    let e : Event = record {
      id = b.next_id;
      topic = topic;
      timestamp = timestamp;
      source = source;
      payload = payload;
    } in
    (record b { events = retained (b.events ++ e ∷ []); next_id = b.next_id + 1 }, e)

abbrev pub count_of : Option ℕ → ℕ
count_of none = 0
count_of (some n) = n

-- `put_nowait` into a queue of at most 100 events
abbrev pub put_nowait : Event → List Event → List Event
put_nowait e q = if ltb (length q) 100 then q ++ e ∷ [] else q

abbrev pub accept_phase : Event → Phase → Phase
accept_phase e (live q) = live (put_nowait e q)
accept_phase e phase = phase

abbrev pub accept : Event → Stream → Stream
accept e s = record s { phase = accept_phase e s.phase }

-- The second part of `publish`: the count, and the offer to every subscriber
unfoldable pub offer : Event → Broker → Broker
unfolding lookup insert
offer e b = record b {
  topic_counts = insert e.topic (count_of (lookup e.topic b.topic_counts) + 1) b.topic_counts;
  streams = map (accept e) b.streams;
}

-- `publish`, where no other thread comes in between
unfoldable pub publish : String → String → Dict Value → ℕ → Broker → Broker
unfolding record_event offer
publish topic source payload timestamp b =
    let (b', e) = record_event topic source payload timestamp b in offer e b'

abbrev pub fresh : ℕ → Stream
fresh after_id = record { phase = reserved after_id; closed = false; yielded = [] }

-- `stream`; `none` is `StreamCapacityError`
unfoldable pub stream : ℕ → Broker → Option Broker
stream after_id b =
    if leb b.max_connections b.active
    then none
    else some (record b {
      active = b.active + 1;
      total = b.total + 1;
      reconnections = if ltb 0 after_id then b.reconnections + 1 else b.reconnections;
      streams = b.streams ++ fresh after_id ∷ [];
    })

-- The generator of a stream goes on to its next lock, read of the table, wait or `yield`.
abbrev pub resume_phase : (ℕ → List Event) → Phase → Stream → Stream
resume_phase rows (reserved after_id) s = record s { phase = replaying (rows after_id) }
resume_phase rows (replaying []) s = record s { phase = live [] }
resume_phase rows (replaying (e ∷ es)) s = record s {
  phase = replaying es;
  yielded = s.yielded ++ e ∷ [];
}
resume_phase rows (live []) s = s
resume_phase rows (live (e ∷ q)) s = record s { phase = live q; yielded = s.yielded ++ e ∷ [] }
resume_phase rows ended s = s

unfoldable pub resume : (ℕ → List Event) → Stream → Stream
resume rows s = resume_phase rows s.phase s

unfoldable pub modify_at : ℕ → (Stream → Stream) → List Stream → List Stream
modify_at i f [] = []
modify_at zero f (s ∷ ss) = f s ∷ ss
modify_at (suc i) f (s ∷ ss) = s ∷ modify_at i f ss

unfoldable pub nth : ℕ → List Stream → Option Stream
nth i [] = none
nth zero (s ∷ ss) = some s
nth (suc i) (s ∷ ss) = nth i ss

abbrev pub shut : Stream → Stream
shut s = record s { phase = ended; closed = true }

abbrev pub is_open : Option Stream → Bool
is_open none = false
is_open (some s) = not s.closed

-- `close`, with `_release_stream`; the test of `_closed` and its setting are one step
unfoldable pub close : ℕ → Broker → Broker
unfolding nth modify_at
close i b =
    if is_open (nth i b.streams)
    then record b { active = b.active - 1; streams = modify_at i shut b.streams }
    else b

-- A step of some thread.
pub data Step : Type 0 where
  to_record : (topic source : String) (payload : Dict Value) (timestamp : ℕ) → Step
  to_offer : Event → Step
  to_stream to_resume to_close : ℕ → Step

abbrev pub or_same : Broker → Option Broker → Broker
or_same b none = b
or_same b (some b') = b'

unfoldable pub step : Step → Broker → Broker
unfolding record_event offer stream resume close modify_at events_after
step (to_record topic source payload timestamp) b =
    (record_event topic source payload timestamp b).0
step (to_offer e) b = offer e b
step (to_stream after_id) b = or_same b (stream after_id b)
step (to_resume i) b = record b {
  streams = modify_at i (resume (λ id. events_after id b)) b.streams;
}
step (to_close i) b = close i b

unfoldable pub steps : List Step → Broker → Broker
unfolding step
steps [] b = b
steps (s ∷ ss) b = steps ss (step s b)

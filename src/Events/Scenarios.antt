-- ===== src/Events/Scenarios.antt =====
-- Scenarios of the event broker, at concrete inputs.
use craftcontrol.Base.{◌≡◌, refl, false, List, [], ◌∷◌, ◌++◌, arith}
use craftcontrol.Base.Dict.{lookup, insert}
use craftcontrol.Events.{
  Event, live, Broker, new_broker, Step, step, steps, to_record, to_offer, to_stream, to_resume,
  to_close, record_event, offer, stream, resume, close, modify_at, nth, events_after, take, drop,
  later,
}
use craftcontrol.Events.Slots.{IsCounted, steps-IsCounted}
use craftcontrol.Events.Delivery.{IsLive, IsDelivered, offered, steps-IsDelivered}

abbrev restarted : Event
restarted = record {
  id = 1;
  topic = "server.updated";
  timestamp = 5;
  source = "manager";
  payload = [];
}

abbrev joined : Event
joined = record { id = 2; topic = "player.joined"; timestamp = 6; source = "players"; payload = [] }

-- Two streams for two slots, a third that is refused, and a close that is repeated.
abbrev crowd : List Step
crowd = to_stream 0 ∷ to_stream 7 ∷ to_stream 0 ∷ to_close 0 ∷ to_close 0 ∷ to_stream 0 ∷ []

steps-IsCounted_example : IsCounted (steps crowd (new_broker 2))
steps-IsCounted_example = steps-IsCounted 2 crowd

crowd_active : (steps crowd (new_broker 2)).active ≡ 2
unfolding steps step stream close nth modify_at
crowd_active = refl

-- A stream that has become live before anything is published.
abbrev listening : Broker
listening = steps (to_stream 0 ∷ to_resume 0 ∷ to_resume 0 ∷ []) (new_broker 2)

listening-IsLive : IsLive 0 [] [] listening
unfolding steps step stream modify_at nth resume events_after later take
listening-IsLive = record {
  subscription = record { phase = live []; closed = false; yielded = [] };
  found = refl;
  phase = refl;
  output = refl;
}

abbrev news : List Step
news =
    to_record "server.updated" "manager" [] 5
    ∷ to_offer restarted
    ∷ to_resume 0
    ∷ to_record "player.joined" "players" [] 6
    ∷ to_stream 1
    ∷ to_offer joined
    ∷ []

steps-IsDelivered_example : IsDelivered 0 ([] ++ [] ++ offered news) 100 (steps news listening)
unfolding offered
steps-IsDelivered_example =
    steps-IsDelivered 0 news listening [] [] listening-IsLive
      (refl, (refl, (refl, (refl, (refl, (refl, tt)))))) (ground arith)

-- An event that is published after the read of the replay and before the queue is in place reaches
-- neither: the stream is live and has yielded nothing.
abbrev unlucky : List Step
unlucky =
    to_stream 0
    ∷ to_resume 0
    ∷ to_record "server.updated" "manager" [] 5
    ∷ to_offer restarted
    ∷ to_resume 0
    ∷ []

missed : IsLive 0 [] [] (steps unlucky (new_broker 2))
unfolding steps step stream modify_at nth resume events_after later take record_event drop offer
    lookup insert
missed = record {
  subscription = record { phase = live []; closed = false; yielded = [] };
  found = refl;
  phase = refl;
  output = refl;
}

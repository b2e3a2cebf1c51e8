-- ===== src/Runtime/Scenarios.antt =====
-- Concrete interleavings, and the theorems at them.
use craftcontrol.Base.{◌≡◌, refl, true, some, List, [], ◌∷◌}
use craftcontrol.Runtime.{Step, to_refresh, to_world, to_rules, to_run, step, steps, idle, ended}
use craftcontrol.Base.Dict.{lookup}
use craftcontrol.Schema.Tables.{gamerules}
use craftcontrol.Runtime.Workers.{IsSafe, steps-IsSafe}
use craftcontrol.Runtime.Waiting.{reaches}
use craftcontrol.Runtime.Requests.{runs_full}
use craftcontrol.Runtime.Answered.{IsAnswered, steps-IsAnswered, steps-IsStarted}

-- A world refresh is asked for again while its worker ends.
abbrev world_again : List Step
world_again =
    to_world "timer"
    ∷ to_run 0 true 1
    ∷ to_run 0 true 2
    ∷ to_run 0 true 3
    ∷ to_run 0 true 4
    ∷ to_world "action"
    ∷ to_run 0 true 5
    ∷ to_run 0 true 6
    ∷ to_run 0 true 7
    ∷ to_run 1 true 8
    ∷ to_run 1 true 9
    ∷ to_run 1 true 10
    ∷ to_run 1 true 11
    ∷ to_run 1 true 12
    ∷ []

steps-IsSafe_example : IsSafe (steps world_again idle).shared (steps world_again idle).threads
steps-IsSafe_example = steps-IsSafe world_again

world_again-threads : (steps world_again idle).threads ≡ ended ∷ ended ∷ []
unfolding steps
world_again-threads = refl

-- The second request of `world_again`, after the steps before it.
abbrev world_before : List Step
world_before =
    to_world "timer" ∷ to_run 0 true 1 ∷ to_run 0 true 2 ∷ to_run 0 true 3 ∷ to_run 0 true 4 ∷ []

abbrev world_after : List Step
world_after =
    to_run 0 true 5
    ∷ to_run 0 true 6
    ∷ to_run 0 true 7
    ∷ to_run 1 true 8
    ∷ to_run 1 true 9
    ∷ to_run 1 true 10
    ∷ to_run 1 true 11
    ∷ to_run 1 true 12
    ∷ []

steps-IsAnswered_example :
    IsAnswered (to_world "action") world_after (step (to_world "action") (steps world_before idle))
unfolding steps
steps-IsAnswered_example =
    steps-IsAnswered world_before world_after (to_world "action") (refl, (refl, tt))

-- A second full refresh comes while the first holds the lock: it is deferred, and the release of the
-- lock starts it.
abbrev timer_deferred : List Step
timer_deferred =
    to_run 0 true 1
    ∷ to_run 1 true 2
    ∷ to_run 0 true 3
    ∷ to_run 0 true 4
    ∷ to_run 2 true 5
    ∷ to_run 2 true 6
    ∷ to_run 2 true 7
    ∷ []

steps-IsStarted_example :
    reaches runs_full timer_deferred
      (step (to_refresh "timer") (steps (to_refresh "start" ∷ []) idle))
    ≡ true
unfolding steps
steps-IsStarted_example =
    steps-IsStarted (to_refresh "start" ∷ []) timer_deferred "timer" tt (refl, (refl, (refl, tt)))

-- A full refresh that comes while the game rules are queried is deferred, and not started when their
-- worker releases the lock: all threads end, and it is still pending.
abbrev left_behind : List Step
left_behind =
    to_rules ("pvp" ∷ [])
    ∷ to_run 0 true 1
    ∷ to_run 0 true 2
    ∷ to_refresh "docker.start"
    ∷ to_run 1 true 3
    ∷ to_run 0 true 4
    ∷ to_run 0 true 5
    ∷ to_run 0 true 6
    ∷ []

left_behind_pending :
    ((steps left_behind idle).shared.pending_full ≡ some "docker.start")
    × ((steps left_behind idle).threads ≡ ended ∷ ended ∷ [])
unfolding steps gamerules lookup
left_behind_pending = (refl, refl)

-- ===== src/Operation/Worker/Health.antt =====
-- operations/service.py: the wait for the container to come online, with a heartbeat at each
-- observation. A round of the loop that goes on waits at least the poll interval or up to the
-- deadline, so one round for each second of the timeout, and one for the last test, are enough fuel.
pub mod Bound
use craftcontrol.Base.{
  ℕ, zero, suc, ◌+◌, ◌-◌, ◌*◌, ◌≤◌, min, ◌≡◌, refl, Bool, true, false, Option, none, some, List, [],
  ◌∷◌, ltb, if◌then◌else◌, is_some, arith, Bool-cases, ◌⊎◌, inl, inr, ◌<◌,
}
use craftcontrol.Base.Dict.{Dict, update}
use craftcontrol.Base.Value.{Value, bool, int, nested}
use craftcontrol.Base.Int.{pos}
use craftcontrol.Operation.Lifecycle.{StageRecord, health_wait, is_running}
use craftcontrol.Operation.Worker.State.{
  ◌>>=◌, ◌>>◌, Environment, Reply-cases, World, Outcome, done, raised, returned, Run, change,
  publish, note, save_stage,
}
use craftcontrol.Operation.Worker.Observe.{observe_container, after_observation, is_online}

-- `HEALTH_POLL_INTERVAL_SECONDS`, in microseconds, as all times
abbrev pub poll_interval : ℕ
poll_interval = 5_000_000

-- `active_stage.evidence.update(…)`, where a stage is active
unfoldable pub update_active : Dict Value → List StageRecord → List StageRecord
unfolding update
update_active evidence [] = []
update_active evidence (r ∷ rs) =
    let rest = update_active evidence rs in
    if is_running r.result
    then record r { evidence = update r.evidence evidence } ∷ rs
    else r ∷ rest

abbrev pub heartbeat : Dict Value → World → World
heartbeat evidence w = record w {
  operation = record w.operation { stages = update_active evidence w.operation.stages };
}

abbrev pub health_evidence : ℕ → Dict Value → Dict Value
health_evidence count observation =
    ("observations", int (pos count)) ∷ ("last", nested observation) ∷ []

abbrev pub timeout_evidence : ℕ → Dict Value → Dict Value
timeout_evidence count last =
    ("observations", int (pos count)) ∷ ("timed_out", bool true) ∷ ("last", nested last) ∷ []

-- A round of the loop ends it, or goes on with the count and the last of the observations.
pub data Round : Type 0 where
  finished : Outcome (Bool × Dict Value) × World → Round
  again : ℕ → Dict Value → World → Round

pub Round-cases :
    (r : Round)
    → ((o : Outcome (Bool × Dict Value) × World) × (r ≡ finished o))
      ⊎ ((count : ℕ) × (last : Dict Value) × (w : World) × (r ≡ again count last w))
Round-cases (finished o) = inl (o, refl)
Round-cases (again count last w) = inr (count, last, w, refl)

-- The value of an option that has one.
abbrev value_of : {A : Type 0} (o : Option A) → is_some o ≡ true → A
value_of none h = cc
value_of (some a) h = a

some-value_of : {A : Type 0} (o : Option A) (h : is_some o ≡ true) → o ≡ some (value_of o h)
some-value_of none h = cc
some-value_of (some a) h = refl

module _ (env : Environment) where
  -- `_record_health_observation`
  unfoldable pub record_health_observation : Dict Value → ℕ → Run (Unit {0})
  unfolding save_stage update_active
  record_health_observation observation count = do
    change (λ w. heartbeat (health_evidence count observation) (note env observation w))
    save_stage env health_wait
    change publish

  -- `time.sleep(min(HEALTH_POLL_INTERVAL_SECONDS, remaining))`
  abbrev pub sleep : ℕ → World → World
  sleep deadline w = record w {
    time = w.time + min poll_interval (deadline - w.time) + env.oversleep w.observed;
  }

  -- The round after the observation is recorded.
  abbrev pub after_record : ℕ → ℕ → Dict Value → Outcome (Unit {0}) × World → Round
  after_record deadline count observation (raised e, w) = finished (raised e, w)
  after_record deadline count observation (returned, w) = finished (returned, w)
  after_record deadline count observation (done _, w) =
      if is_online observation
      then finished (done (true, health_evidence count observation), w)
      else (if ltb w.time deadline
          then again count observation (sleep deadline w)
          else finished (done (false, timeout_evidence count observation), w))

  unfoldable pub health_round : ℕ → ℕ → Dict Value → World → Round
  unfolding observe_container record_health_observation is_online
  health_round deadline count last w =
      if ltb w.time deadline
      then after_record deadline (count + 1) (observe_container env w) (
          record_health_observation (observe_container env w) (count + 1) (after_observation env w))
      else finished (done (false, timeout_evidence count last), w)

  unfoldable pub health_loop :
      ℕ → ℕ → ℕ → Dict Value → World → Option (Outcome (Bool × Dict Value) × World)
  unfolding health_round
  health_loop zero deadline count last w = none
  health_loop (suc n) deadline count last w = elim (health_round deadline count last w) [
    | finished r ↦ some r
    | again count' last' w' ↦ health_loop n deadline count' last' w'
  ]

  -- What a round that goes on has done, from a world at a time and a number of observations.
  pub record IsProgress (deadline count : ℕ) (w : World) (count' : ℕ) (w' : World) : Type 0 where
    pub before : w.time < deadline
    pub waited : w.time + min poll_interval (deadline - w.time) ≤ w'.time
    pub counted : count' ≡ count

  pub record_health_observation-time :
      (observation : Dict Value) (count : ℕ) (w : World)
      → (record_health_observation observation count w).1.time ≡ w.time
  unfolding record_health_observation save_stage
  record_health_observation-time observation count w = elim (Reply-cases (env.write w.writes)) [
    | inl (_, p) ↦ rw p refl
    | inr (e, p) ↦ rw p refl
  ]

  after_record-IsProgress :
      (deadline count : ℕ) (observation : Dict Value) (r : Outcome (Unit {0}) × World) {count' : ℕ}
      {last' : Dict Value} {w' : World}
      → after_record deadline count observation r ≡ again count' last' w'
      → IsProgress deadline count r.1 count' w'
  after_record-IsProgress deadline count observation (raised e, w) p = ground (arith, p)
  after_record-IsProgress deadline count observation (returned, w) p = ground (arith, p)
  after_record-IsProgress deadline count observation (done _, w) p = ground (arith, p)

  pub health_round-IsProgress :
      (deadline count : ℕ) (last : Dict Value) (w : World) {count' : ℕ} {last' : Dict Value}
      {w' : World}
      → health_round deadline count last w ≡ again count' last' w'
      → IsProgress deadline (count + 1) w count' w'
  unfolding health_round
  health_round-IsProgress deadline count last w p = elim (Bool-cases (ltb w.time deadline)) [
    | inl h ↦
        let observation = observe_container env w in
        let r = record_health_observation observation (count + 1) (after_observation env w) in
        let step = after_record-IsProgress deadline (count + 1) observation r (rw h at p) in
        let clock =
          record_health_observation-time observation (count + 1) (after_observation env w) in
        ground (arith, step, clock)
    | inr h ↦ ground (arith, p, h)
  ]

  -- The loop ends when its fuel has a round for each poll interval up to the deadline and one more.
  pub health_loop-terminates :
      (n deadline count : ℕ) (last : Dict Value) (w : World)
      → deadline ≤ w.time + n * poll_interval
      → is_some (health_loop (suc n) deadline count last w) ≡ true
  unfolding health_loop
  health_loop-terminates zero deadline count last w h =
      elim (Round-cases (health_round deadline count last w)) [
        | inl (o, p) ↦ rw (p, is_some) refl
        | inr (count', last', w', p) ↦
            let step = health_round-IsProgress deadline count last w p in ground (arith, step)
      ]
  health_loop-terminates (suc n) deadline count last w h =
      elim (Round-cases (health_round deadline count last w)) [
        | inl (o, p) ↦ rw (p, is_some) refl
        | inr (count', last', w', p) ↦
            let step = health_round-IsProgress deadline count last w p in
            rw (p, is_some)
              (health_loop-terminates n deadline count' last' w' (ground (arith, step)))
      ]

  abbrev pub deadline_of : World → ℕ
  deadline_of w = w.time + env.health_timeout * 1_000_000

  pub health_fuel :
      (w : World) → is_some (health_loop (suc env.health_timeout) (deadline_of w) 0 [] w) ≡ true
  health_fuel w = health_loop-terminates env.health_timeout (deadline_of w) 0 [] w omega arith

  -- `_wait_for_health`
  unfoldable pub wait_for_health : Run (Bool × Dict Value)
  unfolding health_loop
  wait_for_health w =
      value_of (health_loop (suc env.health_timeout) (deadline_of w) 0 [] w) (health_fuel w)

  pub wait_for_health-health_loop :
      (w : World)
      → health_loop (suc env.health_timeout) (deadline_of w) 0 [] w ≡ some (wait_for_health w)
  unfolding wait_for_health
  wait_for_health-health_loop w =
      some-value_of (health_loop (suc env.health_timeout) (deadline_of w) 0 [] w) (health_fuel w)

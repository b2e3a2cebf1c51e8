-- ===== src/Operation/Worker/Health/Bound.antt =====
-- operations/service.py: how often the wait for the container observes it.
use mathlib.Core.Path.{subst}
use craftcontrol.Base.{
  ℕ, zero, suc, ◌+◌, ◌-◌, ◌*◌, ◌<◌, ◌≤◌, ◌≡◌, refl, ap, Bool, some, [], ◌⊎◌, inl, inr, arith, ltb,
  Bool-cases,
}
use craftcontrol.Base.Dict.{Dict}
use craftcontrol.Base.Value.{Value}
use craftcontrol.Operation.Service.Single.{some_injective}
use craftcontrol.Operation.Worker.State.{
  Environment, World, Outcome, done, raised, returned, Reply-cases, save_stage,
}
use craftcontrol.Operation.Worker.Observe.{observe_container, after_observation}
use craftcontrol.Operation.Worker.Health.{
  Round, finished, again, Round-cases, poll_interval, record_health_observation, after_record,
  health_round, health_loop, health_round-IsProgress, wait_for_health, wait_for_health-health_loop,
  deadline_of,
}

module _ (env : Environment) where
  record_health_observation-observed :
      (observation : Dict Value) (count : ℕ) (w : World)
      → (record_health_observation env observation count w).1.observed ≡ w.observed
  unfolding record_health_observation save_stage
  record_health_observation-observed observation count w = elim (Reply-cases (env.write w.writes)) [
    | inl (_, p) ↦ rw p refl
    | inr (e, p) ↦ rw p refl
  ]

  -- The number of observations after a round.
  abbrev world_of : Round → World
  world_of (finished (o, w)) = w
  world_of (again count last w) = w

  -- Before the deadline a round observes once, and after it not at all.
  abbrev Spent : ℕ → World → World → Type 0
  Spent deadline w w' =
      ((w.time < deadline) × (w'.observed ≡ w.observed + 1)) ⊎ (w'.observed ≡ w.observed)

  after_record-observed :
      (deadline count : ℕ) (d : Dict Value) (o : Outcome (Unit {0})) (w : World)
      → (world_of (after_record env deadline count d (o, w))).observed ≡ w.observed
  after_record-observed deadline count d (raised e) w = refl
  after_record-observed deadline count d returned w = refl
  after_record-observed deadline count d (done _) w = ground arith

  health_round-observed :
      (deadline count : ℕ) (last : Dict Value) (w : World)
      → Spent deadline w (world_of (health_round env deadline count last w))
  unfolding health_round
  health_round-observed deadline count last w = elim (Bool-cases (ltb w.time deadline)) [
    | inr late ↦ inr (rw late refl)
    | inl early ↦
        let d = observe_container env w in
        let r = record_health_observation env d (count + 1) (after_observation env w) in
        let e = after_record-observed deadline (count + 1) d r.0 r.1 in
        let f = record_health_observation-observed d (count + 1) (after_observation env w) in
        inl (ground (arith, early), rw early (ground (arith, e, f)))
  ]

  -- The bound, where the rounds after this one keep it.
  finished_bound :
      (n deadline : ℕ) (w : World) (o r : Outcome (Bool × Dict Value) × World)
      → Spent deadline w o.1
      → some o ≡ some r
      → deadline ≤ w.time + n * poll_interval
      → r.1.observed ≤ w.observed + n
  finished_bound n deadline w o r spent h bound =
      let e : o.1.observed ≡ r.1.observed = ap (λ x. x.1.observed) (some_injective h) in
      ground (arith, e, spent, bound)

  pub health_loop-observed :
      (fuel n deadline count : ℕ) (last : Dict Value) (w : World)
      (r : Outcome (Bool × Dict Value) × World)
      → health_loop env fuel deadline count last w ≡ some r
      → deadline ≤ w.time + n * poll_interval
      → r.1.observed ≤ w.observed + n
  unfolding health_loop
  health_loop-observed zero n deadline count last w r h bound = cc
  health_loop-observed (suc fuel) n deadline count last w r h bound =
      let seen = health_round-observed deadline count last w in
      elim (Round-cases (health_round env deadline count last w)) [
        | inl (o, p) ↦
            finished_bound n deadline w o r (subst (λ x. Spent deadline w (world_of x)) p seen)
              (rw (p, health_loop) at h) bound
        | inr (count', last', w', p) ↦
            let step = health_round-IsProgress env deadline count last w p in
            let spent = subst (λ x. Spent deadline w (world_of x)) p seen in
            let n_pred : n ≡ suc (n - 1) = ground (arith, step, bound) in
            let rest =
              health_loop-observed fuel (n - 1) deadline count' last' w' r
                (rw (p, health_loop) at h) (ground (arith, step, bound)) in
            ground (arith, rest, spent, step, bound)
      ]

  -- A wait observes the container at most once for each whole or begun poll interval of its timeout:
  -- at most `n` times when the timeout is at most `n` times five seconds.
  pub wait_for_health-observed :
      (n : ℕ) (w : World)
      → env.health_timeout ≤ n * 5
      → (wait_for_health env w).1.observed ≤ w.observed + n
  wait_for_health-observed n w h =
      health_loop-observed (suc env.health_timeout) n (deadline_of env w) 0 [] w
        (wait_for_health env w) (wait_for_health-health_loop env w) (ground (arith, h))

-- ===== src/Agent/Executor/Induction.antt =====
-- runtime/operations.py: what every write and every call of a port keeps, `run` keeps.
use craftcontrol.Base.{
  ℕ, ◌≡◌, refl, false, String, arith, Bool-cases, inl, inr, str_eq, Option, some,
}
use craftcontrol.Base.Dict.{Dict}
use craftcontrol.Base.Value.{Value}
use craftcontrol.Agent.Record.{Stage, prepare, restart, health_wait}
use craftcontrol.Agent.Settings.{build_updates}
use craftcontrol.Agent.Store.{Store, get, update}
use craftcontrol.Agent.Executor.{
  Environment, World, Ending, Attempt-cases, Restart-cases, wrote, restarting, emit, enter, finish,
  server_port, is_empty_dict, run, run_restart, run_health_wait,
}
use craftcontrol.Agent.Executor.Verdict.{get-update}

module _ (str : Value → String) (env : Environment) (oid : String) (state : Dict Value)
    (P : Store → Type 0)
    (entered : (s : Store) (stage : Stage)
      → P s
      → P (update (env.written (some stage)) oid (λ r. record r { current_stage = some stage }) s))
    (concluded : (s : Store) (e : Ending)
      → P s
      → P (update (env.written Option.none) oid (finish env.clock e) s)) where
  run_health_wait_induction :
      (timeout : ℕ) (ref : String) (w : World)
      → P w.store
      → P (run_health_wait str env oid state timeout ref w).store
  unfolding run_health_wait
  run_health_wait_induction timeout ref w h =
      let g = entered w.store health_wait h in
      elim (Attempt-cases (server_port state)) [
        | inl (d, t, p) ↦ rw (p, run_health_wait) (concluded _ _ g)
        | inr (port, p) ↦ elim (Attempt-cases (env.wait_healthy "127.0.0.1" port timeout)) [
          | inl (d, t, q) ↦ rw (p, run_health_wait) (rw (q, run_health_wait) (concluded _ _ g))
          | inr (b, q) ↦ elim (Bool-cases b) [
            | inl c ↦ rw (p, run_health_wait) (rw (q, c, run_health_wait) (concluded _ _ g))
            | inr c ↦ rw (p, run_health_wait) (rw (q, c, run_health_wait) (concluded _ _ g))
          ]
        ]
      ]

  run_restart_induction :
      (health_timeout timeout : ℕ) (w : World)
      → P w.store
      → P (run_restart str env oid state health_timeout timeout w).store
  unfolding run_restart
  run_restart_induction health_timeout timeout w h =
      let g = entered w.store restart h in
      elim (Restart-cases (env.restart_container timeout)) [
        | inl (d, p) ↦ rw (p, run_restart) (concluded _ _ g)
        | inr other ↦ elim other [
          | inl (d, t, p) ↦ rw (p, run_restart) (concluded _ _ g)
          | inr (ref, p) ↦
              rw (p, run_restart)
                (run_health_wait_induction health_timeout ref
                  (emit (restarting timeout) (enter env oid restart w)) g)
        ]
      ]

  pub run_induction :
      (health_timeout restart_timeout : ℕ) (w : World)
      → P w.store
      → P (run str env oid state health_timeout restart_timeout w).store
  unfolding run
  run_induction health_timeout restart_timeout w h =
      let updates = build_updates str state in
      let w' = enter env oid prepare w in
      let g = entered w.store prepare h in
      elim (Bool-cases (is_empty_dict updates)) [
        | inl c ↦ rw (c, run) (run_restart_induction health_timeout restart_timeout w' g)
        | inr c ↦ elim (Attempt-cases (env.write_properties updates)) [
          | inl (d, t, p) ↦ rw (c, run) (rw (p, run) (concluded _ _ g))
          | inr (done, p) ↦
              rw (c, run)
                (rw (p, run)
                  (run_restart_induction health_timeout restart_timeout (emit (wrote updates) w')
                    g))
        ]
      ]

-- `run` changes no other operation's record.
pub get-run_other :
    (str : Value → String) (env : Environment) (oid : String) (state : Dict Value)
    (health_timeout restart_timeout : ℕ) (w : World) (k : String)
    → str_eq oid k ≡ false
    → get k (run str env oid state health_timeout restart_timeout w).store ≡ get k w.store
get-run_other str env oid state health_timeout restart_timeout w k n =
    run_induction str env oid state (λ s. get k s ≡ get k w.store)
      (λ s stage h. ground (
        arith,
        get-update (env.written (some stage)) oid (λ r. record r { current_stage = some stage }) s
            k,
      ))
      (λ s e h. ground (arith, get-update (env.written Option.none) oid (finish env.clock e) s k))
      health_timeout restart_timeout w refl

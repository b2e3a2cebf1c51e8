-- ===== src/Agent/Executor/Order.antt =====
-- runtime/operations.py: what `run` asks of the ports, in which order, and what it leaves alone.
use mathlib.Core.List.{append-nil, append_assoc}
use craftcontrol.Base.{
  ℕ, ◌≡◌, sym, ◌∙◌, List, [], ◌∷◌, ◌++◌, String, Bool-cases, inl, inr, if◌then◌else◌,
}
use craftcontrol.Base.Dict.{Dict}
use craftcontrol.Base.Value.{Value}
use craftcontrol.Agent.Record.{prepare, restart}
use craftcontrol.Agent.Settings.{build_updates}
use craftcontrol.Agent.Executor.{
  Environment, World, Effect, returned, raised, Attempt-cases, Restart-cases, restarted, wrote,
  restarting, probed, emit, enter, server_port, is_empty_dict, run, run_restart, run_health_wait,
}
use craftcontrol.Agent.Executor.Verdict.{prepared}

module _ (str : Value → String) (env : Environment) (oid : String) (state : Dict Value) where
  -- The probe is asked once the restart has returned, if the port is an integer.
  unfoldable pub probe_calls : ℕ → List Effect
  probe_calls timeout = elim (server_port state) [
    | raised _ _ ↦ []
    | returned port ↦ probed "127.0.0.1" port timeout ∷ []
  ]

  unfoldable pub restart_calls : ℕ → ℕ → List Effect
  restart_calls health_timeout timeout =
      restarting timeout
      ∷ elim (env.restart_container timeout) [ restarted _ ↦ probe_calls health_timeout | _ ↦ [] ]

  unfoldable pub write_calls : List Effect
  write_calls =
      if is_empty_dict (build_updates str state) then [] else wrote (build_updates str state) ∷ []

  -- The calls of the ports, in order: the properties are written first, if there are any, the
  -- container is restarted only if that succeeded, and the probe is asked only if the restart
  -- returned.
  unfoldable port_calls : ℕ → ℕ → List Effect
  port_calls health_timeout restart_timeout =
      if prepared str env oid state
      then write_calls ++ restart_calls health_timeout restart_timeout
      else write_calls

  effects-run_health_wait :
      (timeout : ℕ) (ref : String) (w : World)
      → (run_health_wait str env oid state timeout ref w).effects ≡ w.effects ++ probe_calls timeout
  unfolding run_health_wait probe_calls
  effects-run_health_wait timeout ref w = elim (Attempt-cases (server_port state)) [
    | inl (d, t, p) ↦ rw (p, run_health_wait, probe_calls) (sym (append-nil w.effects))
    | inr (port, p) ↦ elim (Attempt-cases (env.wait_healthy "127.0.0.1" port timeout)) [
      | inl (d, t, q) ↦ rw (p, run_health_wait, probe_calls) (rw (q, run_health_wait))
      | inr (b, q) ↦ elim (Bool-cases b) [
        | inl c ↦ rw (p, run_health_wait, probe_calls) (rw (q, c, run_health_wait))
        | inr c ↦ rw (p, run_health_wait, probe_calls) (rw (q, c, run_health_wait))
      ]
    ]
  ]

  effects-run_restart :
      (health_timeout timeout : ℕ) (w : World)
      → (run_restart str env oid state health_timeout timeout w).effects
        ≡ w.effects ++ restart_calls health_timeout timeout
  unfolding run_restart restart_calls
  effects-run_restart health_timeout timeout w =
      elim (Restart-cases (env.restart_container timeout)) [
        | inl (d, p) ↦ rw (p, run_restart, restart_calls)
        | inr other ↦ elim other [
          | inl (d, t, p) ↦ rw (p, run_restart, restart_calls)
          | inr (ref, p) ↦
              rw (p, run_restart, restart_calls)
                (effects-run_health_wait health_timeout ref
                    (emit (restarting timeout) (enter env oid restart w))
                  ∙ append_assoc w.effects (restarting timeout ∷ []) (probe_calls health_timeout))
        ]
      ]

  -- `run` asks the ports for exactly these calls, in this order, after those made before.
  effects-run :
      (health_timeout restart_timeout : ℕ) (w : World)
      → (run str env oid state health_timeout restart_timeout w).effects
        ≡ w.effects ++ port_calls health_timeout restart_timeout
  unfolding run prepared port_calls write_calls
  effects-run health_timeout restart_timeout w =
      let updates = build_updates str state in
      let w' = enter env oid prepare w in
      elim (Bool-cases (is_empty_dict updates)) [
        | inl c ↦
            rw (c, run, prepared, port_calls, write_calls)
              (effects-run_restart health_timeout restart_timeout w')
        | inr c ↦ elim (Attempt-cases (env.write_properties updates)) [
          | inl (d, t, p) ↦
              rw (c, run, prepared, port_calls, write_calls)
                (rw (p, run, prepared, port_calls, write_calls))
          | inr (done, p) ↦
              rw (c, run, prepared, port_calls, write_calls)
                (rw (p, run, prepared, port_calls, write_calls)
                  (effects-run_restart health_timeout restart_timeout (emit (wrote updates) w')
                    ∙ append_assoc w.effects (wrote updates ∷ [])
                        (restart_calls health_timeout restart_timeout)))
        ]
      ]

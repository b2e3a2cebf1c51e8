-- ===== src/Agent/Executor/Verdict.antt =====
-- runtime/operations.py: the outcome of `run` as a function of what the ports did.
use craftcontrol.Base.{
  ℕ, ◌≡◌, Bool, true, false, Option, none, some, String, arith, if◌then◌else◌, str_eq, str_eq_refl,
  eq_iff, Option-cases, Bool-cases, inl, inr, not, is_some, ◌||◌,
}
use craftcontrol.Base.Dict.{Dict, lookup, insert, lookup-insert}
use craftcontrol.Base.Value.{Value}
use craftcontrol.Agent.Record.{
  OperationRecord, Stage, prepare, restart, health_wait, Outcome, Status,
}
use craftcontrol.Agent.Settings.{build_updates}
use craftcontrol.Agent.Store.{Store, get, update, persist}
use craftcontrol.Agent.Executor.{
  Environment, World, Ending, returned, raised, Attempt-cases, Restart-cases, restarted, wrote,
  restarting, emit, enter, finish, server_port, is_empty_dict, run, run_restart, run_health_wait,
}

records-persist :
    (w : Bool) (rec : OperationRecord) (s : Store) → (persist w rec s).records ≡ s.records
unfolding persist
records-persist w rec s = ground arith

abbrev mapped :
    (OperationRecord → OperationRecord) → Option OperationRecord → Option OperationRecord
mapped f none = none
mapped f (some r) = some (f r)

-- An update of one record, seen through `get`.
pub get-update :
    (w : Bool) (oid : String) (f : OperationRecord → OperationRecord) (s : Store) (k : String)
    → get k (update w oid f s) ≡ (if str_eq oid k then mapped f (get k s) else get k s)
unfolding get update
get-update w oid f s k = elim (Option-cases (lookup oid s.records)) [
  | inl p ↦ rw (p, update) (ground (arith, eq_iff oid k))
  | inr (r, p) ↦
      rw (p, update)
        (ground (
          arith,
          records-persist w (f r) (record s { records = insert oid (f r) s.records }),
          lookup-insert oid k (f r) s.records,
          eq_iff oid k,
        ))
]

module _ (str : Value → String) (env : Environment) (oid : String) (state : Dict Value) where
  get-enter :
      (stage : Stage) (w : World) (r : OperationRecord)
      → get oid w.store ≡ some r
      → get oid (enter env oid stage w).store ≡ some (record r { current_stage = some stage })
  get-enter stage w r h = ground (
    arith,
    get-update (env.written (some stage)) oid (λ r. record r { current_stage = some stage }) w.store
        oid,
    str_eq_refl oid,
  )

  abbrev pub Ended : (OperationRecord → Type 0) → Option OperationRecord → Type 0
  Ended P none = ⊥
  Ended P (some r) = P r

  seen :
      (e : Ending) (s : Store) (r : OperationRecord)
      → get oid s ≡ some r
      → get oid (update (env.written none) oid (finish env.clock e) s) ≡ some (finish env.clock e r)
  seen e s r h =
      ground (arith, get-update (env.written none) oid (finish env.clock e) s oid, str_eq_refl oid)

  -- An operation's last write decides what is seen of it.
  ended :
      (P : OperationRecord → Type 0) (e : Ending) (s : Store) (r : OperationRecord)
      → get oid s ≡ some r
      → P (finish env.clock e r)
      → Ended P (get oid (update (env.written none) oid (finish env.clock e) s))
  ended P e s r h p = rw (seen e s r h) p

  -- Whether the probe was asked, and reported a healthy server.
  unfoldable pub healthy : ℕ → Bool
  unfolding server_port
  healthy timeout = elim (server_port state) [
    | raised _ _ ↦ false
    | returned port ↦ elim (env.wait_healthy "127.0.0.1" port timeout) [
      | returned true ↦ true
      | _ ↦ false
    ]
  ]

  unfoldable pub reference : ℕ → Option String
  reference timeout = elim (env.restart_container timeout) [ restarted ref ↦ some ref | _ ↦ none ]

  unfoldable pub prepared : Bool
  unfolding build_updates
  prepared =
      is_empty_dict (build_updates str state)
      || elim (env.write_properties (build_updates str state)) [
        | returned _ ↦ true
        | raised _ _ ↦ false
      ]

  -- The first stage that failed, if one did.
  unfoldable pub first_failure : ℕ → ℕ → Option Stage
  first_failure health_timeout restart_timeout =
      if not prepared
      then some prepare
      else if not (is_some (reference restart_timeout))
      then some restart
      else if not (healthy health_timeout)
      then some health_wait
      else none

  -- The record of an operation whose first failed stage is `failed` and whose restart reported
  -- `ref`.
  pub record EndsAs (failed : Option Stage) (ref : Option String) (r : OperationRecord)
      : Type 0 where
    pub status : r.status ≡ Status.done
    pub current_stage : r.current_stage ≡ none
    pub outcome : r.outcome ≡ some (if is_some failed then Outcome.error else Outcome.success)
    pub executor_ref : r.executor_ref ≡ ref
    pub health_reached : r.health_reached ≡ some (not (is_some failed))
    pub failed_stage : r.failed_stage ≡ failed
    pub error_code : is_some r.error_code ≡ is_some failed
    pub completed_at : r.completed_at ≡ some env.clock

  failed_health : ℕ → Option Stage
  failed_health timeout = if not (healthy timeout) then some health_wait else none

  failed_restart : ℕ → ℕ → Option Stage
  failed_restart health_timeout timeout =
      if not (is_some (reference timeout)) then some restart else failed_health health_timeout

  run_health_wait-EndsAs :
      (timeout : ℕ) (ref : String) (w : World) (r : OperationRecord)
      → get oid w.store ≡ some r
      → Ended
          (EndsAs (failed_health timeout) (some ref))
          (get oid (run_health_wait str env oid state timeout ref w).store)
  unfolding run_health_wait failed_health healthy
  run_health_wait-EndsAs timeout ref w r h =
      let r' = record r { current_stage = some health_wait } in
      let g = get-enter health_wait w r h in
      let P = EndsAs (failed_health timeout) (some ref) in
      elim (Attempt-cases (server_port state)) [
        | inl (d, t, p) ↦ rw (p, run_health_wait) (ended P _ _ r' g (ground arith))
        | inr (port, p) ↦ elim (Attempt-cases (env.wait_healthy "127.0.0.1" port timeout)) [
          | inl (d, t, q) ↦
              rw (p, run_health_wait) (rw (q, run_health_wait) (ended P _ _ r' g (ground arith)))
          | inr (b, q) ↦ elim (Bool-cases b) [
            | inl c ↦
                rw (p, run_health_wait)
                  (rw (q, c, run_health_wait) (ended P _ _ r' g (ground arith)))
            | inr c ↦
                rw (p, run_health_wait)
                  (rw (q, c, run_health_wait) (ended P _ _ r' g (ground arith)))
          ]
        ]
      ]

  run_restart-EndsAs :
      (health_timeout timeout : ℕ) (w : World) (r : OperationRecord)
      → get oid w.store ≡ some r
      → Ended
          (EndsAs (failed_restart health_timeout timeout) (reference timeout))
          (get oid (run_restart str env oid state health_timeout timeout w).store)
  unfolding run_restart failed_restart reference
  run_restart-EndsAs health_timeout timeout w r h =
      let r' = record r { current_stage = some restart } in
      let g = get-enter restart w r h in
      let P = EndsAs (failed_restart health_timeout timeout) (reference timeout) in
      elim (Restart-cases (env.restart_container timeout)) [
        | inl (d, p) ↦ rw (p, run_restart) (ended P _ _ r' g (ground arith))
        | inr other ↦ elim other [
          | inl (d, t, p) ↦ rw (p, run_restart) (ended P _ _ r' g (ground arith))
          | inr (ref, p) ↦
              rw (p, run_restart, reference, failed_restart)
                (run_health_wait-EndsAs health_timeout ref
                  (emit (restarting timeout) (enter env oid restart w)) r' g)
        ]
      ]

  -- `run` on a known operation, whatever the ports do, ends with a finished record: its failed
  -- stage is the first stage that failed, the outcome is `ok` and the health flag is set exactly
  -- if none did, an error code is there exactly if one did, and the executor's reference is there
  -- exactly if the restart was reached and returned.
  pub run-EndsAs :
      (health_timeout restart_timeout : ℕ) (w : World) (r : OperationRecord)
      → get oid w.store ≡ some r
      → Ended
          (EndsAs
            (first_failure health_timeout restart_timeout)
            (if prepared then reference restart_timeout else none))
          (get oid (run str env oid state health_timeout restart_timeout w).store)
  unfolding run first_failure prepared failed_restart failed_health
  run-EndsAs health_timeout restart_timeout w r h =
      let r' = record r { current_stage = some prepare } in
      let g = get-enter prepare w r h in
      let updates = build_updates str state in
      let w' = enter env oid prepare w in
      elim (Bool-cases (is_empty_dict updates)) [
        | inl c ↦
            rw (c, run, prepared, first_failure)
              (run_restart-EndsAs health_timeout restart_timeout w' r' g)
        | inr c ↦ elim (Attempt-cases (env.write_properties updates)) [
          | inl (d, t, p) ↦
              rw (c, run) (rw (p, run) (ended (EndsAs (some prepare) none) _ _ r' g (ground arith)))
          | inr (done, p) ↦
              rw (c, run, prepared, first_failure)
                (rw (p, run, prepared, first_failure)
                  (run_restart-EndsAs health_timeout restart_timeout (emit (wrote updates) w') r'
                    g))
        ]
      ]

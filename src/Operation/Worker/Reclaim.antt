-- ===== src/Operation/Worker/Reclaim.antt =====
-- operations/service.py: the reclaim of an operation whose thread has died, at the start of the
-- process and on the read paths.
pub mod Frees
use craftcontrol.Base.{
  Option, ℕ, ◌+◌, ◌*◌, Bool, true, false, none, some, String, str_eq, if◌then◌else◌, any, not, ltb,
  ◌&&◌, ◌||◌,
}
use craftcontrol.Operation.Lifecycle.{ServerOperation, active_stage}
use craftcontrol.Operation.Service.{get_active, get_latest}
use craftcontrol.Operation.Worker.State.{Environment, World, done, Run, now, ◌>>=◌}
use craftcontrol.Operation.Worker.Observe.{fail_step}
use craftcontrol.Operation.Worker.Stages.{stage_or_review}

-- `active.operation_id in self._live_workers`
abbrev pub is_live : ServerOperation → World → Bool
is_live op w = any (str_eq op.operation_id) w.live_workers

module _ (env : Environment) where
  -- `age < threshold_seconds`
  abbrev pub is_recent : ℕ → ServerOperation → World → Bool
  is_recent threshold op w = ltb (now env w) (op.updated_at + threshold * 1_000_000)

  abbrev pub reclaim_active : ℕ → String → ServerOperation → Run (Unit {0})
  reclaim_active threshold reason active w =
      if is_live active w || is_recent threshold active w
      then (done tt, w)
      else fail_step env (stage_or_review (active_stage active)) reason none
          (record w { operation = active })

  -- `_reclaim_stalled`, with whether another thread holds the lock, and whether the table can be read
  unfoldable pub reclaim_stalled : String → ℕ → String → Bool → Bool → Bool → Run (Unit {0})
  unfolding fail_step get_active active_stage
  reclaim_stalled server threshold reason lock held readable w =
      if lock && held || not readable then (done tt, w) else elim (get_active server w.table) [
        | none ↦ (done tt, w)
        | some active ↦ reclaim_active threshold reason active w
      ]

  -- `_reconcile_startup_orphans` and `_reclaim_abandoned`, with `ORPHAN_STALENESS_SECONDS` and
  -- `ABANDONED_STALENESS_SECONDS`
  unfoldable pub reconcile_startup_orphans : String → Bool → Run (Unit {0})
  unfolding reclaim_stalled
  reconcile_startup_orphans server readable =
      reclaim_stalled server 30 "abandoned: process restarted" false false readable

  unfoldable pub reclaim_abandoned : String → Bool → Bool → Run (Unit {0})
  unfolding reclaim_stalled
  reclaim_abandoned server held readable =
      reclaim_stalled server 900 "abandoned: no progress for 900s" true held readable

  -- `get_latest` and `get_active` of the service
  unfoldable pub read_latest : String → Bool → Bool → Run (Option ServerOperation)
  unfolding reclaim_abandoned get_latest
  read_latest server held readable =
      reclaim_abandoned server held readable >>= λ _ w. (done (get_latest server w.table), w)

  unfoldable pub read_active : String → Bool → Bool → Run (Option ServerOperation)
  unfolding reclaim_abandoned get_active
  read_active server held readable =
      reclaim_abandoned server held readable >>= λ _ w. (done (get_active server w.table), w)

-- ===== src/Runtime/Threads.antt =====
-- runtime/reconciliation.py: how many threads stand at a place, and how a step of one changes it.
use craftcontrol.Base.{
  ℕ, zero, suc, ◌+◌, ◌≤◌, ◌≡◌, refl, Bool, true, false, List, [], ◌∷◌, ◌++◌, if◌then◌else◌, arith,
  is_some,
}
use craftcontrol.Base.Rows.{count_where}
use craftcontrol.Runtime.{
  Thread, full_start, full_run, world_top, world_wait, world_hold, world_final, world_restart,
  world_request, rules_sleep, rules_wait, rules_hold, rules_final, rules_restart, snapshot_run,
  ended, Shared, advance, request_world, request_rules, request_snapshot, nth, put, is_empty,
}

abbrev pub count : (Thread → Bool) → List Thread → ℕ
count = count_where

abbrev pub bit : Bool → ℕ
bit b = if b then 1 else 0

-- The threads that hold the refresh lock, the workers, and those that start a worker again.
unfoldable pub holds : Thread → Bool
holds (full_run _) = true
holds (world_hold _ _) = true
holds (rules_hold _) = true
holds _ = false

unfoldable pub works_world : Thread → Bool
works_world (world_top _) = true
works_world (world_wait _ _) = true
works_world (world_hold _ _) = true
works_world (world_final _) = true
works_world _ = false

unfoldable pub restarts_world : Thread → Bool
restarts_world (world_restart _) = true
restarts_world (world_request _) = true
restarts_world _ = false

unfoldable pub works_rules : Thread → Bool
works_rules rules_sleep = true
works_rules (rules_wait _) = true
works_rules (rules_hold _) = true
works_rules rules_final = true
works_rules _ = false

unfoldable pub restarts_rules : Thread → Bool
restarts_rules rules_restart = true
restarts_rules _ = false

unfoldable pub syncs : Thread → Bool
syncs snapshot_run = true
syncs _ = false

pub count-append :
    (p : Thread → Bool) (ts us : List Thread) → count p (ts ++ us) ≡ count p ts + count p us
unfolding count_where
count-append p [] us = omega arith
count-append p (t ∷ ts) us = ground (arith, count-append p ts us)

pub count-put :
    (p : Thread → Bool) (i : ℕ) (t : Thread) (ts : List Thread)
    → p ended ≡ false
    → (nth i ts ≡ ended → t ≡ ended)
    → count p (put i t ts) + bit (p (nth i ts)) ≡ count p ts + bit (p t)
unfolding count_where nth put
count-put p i t [] e h = rw (e, h refl, e) refl
count-put p zero t (u ∷ ts) e h = ground arith
count-put p (suc i) t (u ∷ ts) e h = ground (arith, count-put p i t ts e h)

pub nth-count :
    (p : Thread → Bool) (i : ℕ) (ts : List Thread)
    → p ended ≡ false
    → p (nth i ts) ≡ true
    → 1 ≤ count p ts
unfolding count_where nth
nth-count p i [] e h = ground (arith, e, h)
nth-count p zero (t ∷ ts) e h = ground (arith, h)
nth-count p (suc i) (t ∷ ts) e h = ground (arith, nth-count p i ts e h)

module _ (ok : Bool) (now : ℕ) (s : Shared) where
  -- A thread that holds the lock finds it taken; the lock follows the threads that hold it.
  pub advance-holds :
      (t : Thread)
      → (holds t ≡ true → s.refresh_lock ≡ true)
      → bit (holds (advance ok now t s).thread)
          + count holds (advance ok now t s).spawned
          + bit s.refresh_lock
        ≡ bit (holds t) + bit (advance ok now t s).shared.refresh_lock
  unfolding advance holds count_where request_world request_rules request_snapshot
  advance-holds (full_start r) h = ground (arith, h)
  advance-holds t h = ground (arith, h)

  pub advance-works_world :
      (t : Thread)
      → (works_world t ≡ true → s.world_running ≡ true)
      → bit (works_world (advance ok now t s).thread)
          + count works_world (advance ok now t s).spawned
          + bit s.world_running
        ≡ bit (works_world t) + bit (advance ok now t s).shared.world_running
  unfolding advance works_world count_where request_world request_rules request_snapshot
  advance-works_world (full_start r) h = ground (arith, h)
  advance-works_world t h = ground (arith, h)

  pub advance-works_rules :
      (t : Thread)
      → (works_rules t ≡ true → s.rules_running ≡ true)
      → bit (works_rules (advance ok now t s).thread)
          + count works_rules (advance ok now t s).spawned
          + bit s.rules_running
        ≡ bit (works_rules t) + bit (advance ok now t s).shared.rules_running
  unfolding advance works_rules count_where request_world request_rules request_snapshot
  advance-works_rules (full_start r) h = ground (arith, h)
  advance-works_rules t h = ground (arith, h)

  pub advance-syncs :
      (t : Thread)
      → (syncs t ≡ true → s.sync_running ≡ true)
      → bit (syncs (advance ok now t s).thread)
          + count syncs (advance ok now t s).spawned
          + bit s.sync_running
        ≡ bit (syncs t) + bit (advance ok now t s).shared.sync_running
  unfolding advance syncs count_where request_world request_rules request_snapshot
  advance-syncs (full_start r) h = ground (arith, h)
  advance-syncs t h = ground (arith, h)

  -- A pending reason has a worker, or a thread that starts one; `n` others start one.
  pub advance-world_kept :
      (n : ℕ) (t : Thread)
      → (is_some s.pending_world ≡ true → 1 ≤ bit s.world_running + n + bit (restarts_world t))
      → is_some (advance ok now t s).shared.pending_world ≡ true
      → 1
        ≤ bit (advance ok now t s).shared.world_running
          + n
          + bit (restarts_world (advance ok now t s).thread)
          + count restarts_world (advance ok now t s).spawned
  unfolding advance restarts_world count_where request_world request_rules request_snapshot
  advance-world_kept n (full_start r) h k = ground (arith, h, k)
  advance-world_kept n t h k = ground (arith, h, k)

  pub advance-rules_kept :
      (n : ℕ) (t : Thread)
      → (works_rules t ≡ true → s.rules_running ≡ true)
      → (is_empty s.pending_rules ≡ false → 1 ≤ bit s.rules_running + n + bit (restarts_rules t))
      → is_empty (advance ok now t s).shared.pending_rules ≡ false
      → 1
        ≤ bit (advance ok now t s).shared.rules_running
          + n
          + bit (restarts_rules (advance ok now t s).thread)
          + count restarts_rules (advance ok now t s).spawned
  unfolding advance restarts_rules works_rules count_where request_world request_rules
      request_snapshot
  advance-rules_kept n (full_start r) w h k = ground (arith, h, k)
  advance-rules_kept n t w h k = ground (arith, w, h, k)

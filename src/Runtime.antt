-- ===== src/Runtime.antt =====
-- apps/server/controlplane/src/runtime/reconciliation.py: how the requests of refreshes are joined,
-- deferred and carried out by threads.
-- A step of a thread is what it does up to its next lock or wait. What a refresh reads and writes
-- while it holds the lock is one step that succeeds or raises. There is a world service. Publications
-- are left out.
pub mod Threads
pub mod Workers
pub mod Deferred
pub mod Waiting
mod Requests
pub mod Answered
mod Scenarios
use craftcontrol.Base.{
  ℕ, zero, suc, ◌+◌, ◌*◌, Bool, true, false, ◌||◌, Option, none, some, List, [], ◌∷◌, ◌++◌, String,
  str_eq, ltb, if◌then◌else◌, any, filter, is_some,
}
use craftcontrol.Base.Dict.{contains}
use craftcontrol.Schema.Tables.{gamerules}

-- Where a thread stands, with its local variables.
pub data Thread : Type 0 where
  -- `refresh`: before it tries the lock, with the lock, and after it
  full_start full_run full_after : (reason : String) → Thread
  -- the worker of `refresh_world_async`: before it takes the pending reason, before it takes the lock
  -- for a reason, with the lock, and in its `finally`
  world_top : (reason : String) → Thread
  world_wait world_hold : (reason pending : String) → Thread
  world_final : (reason : String) → Thread
  -- after its `finally`, before and after it reads the reason with which it starts again
  world_restart world_request : (reason : String) → Thread
  -- the worker of `refresh_gamerules_async`
  rules_sleep : Thread
  rules_wait rules_hold : (pending : List String) → Thread
  rules_final rules_restart : Thread
  -- the worker of `request_telemetry_snapshot_async`
  snapshot_run : Thread
  ended : Thread

pub record Shared : Type 0 where
  pub refresh_lock : Bool
  pub refreshing : Bool
  pub pending_full : Option String
  pub pending_world : Option String
  pub world_running : Bool
  pub pending_rules : List String
  pub rules_running : Bool
  pub sync_running : Bool
  pub last_request : ℕ

-- What a step comes to: the shared state, where its thread stands, and the threads that it starts.
pub record Outcome : Type 0 where
  pub shared : Shared
  pub thread : Thread
  pub spawned : List Thread

abbrev pub outcome : Shared → Thread → List Thread → Outcome
outcome s t ts = record { shared = s; thread = t; spawned = ts }

abbrev pub deferred : Option String → List Thread
deferred none = []
deferred (some reason) = full_start reason ∷ []

-- `_release_refresh_lock`
abbrev pub release_refresh_lock : Shared → Shared
release_refresh_lock s = record s { refresh_lock = false; pending_full = none }

-- `set.update`
unfoldable pub union : List String → List String → List String
union xs [] = xs
union xs (y ∷ ys) = union (if any (str_eq y) xs then xs else (xs ++ y ∷ [])) ys

abbrev pub is_empty : List String → Bool
is_empty [] = true
is_empty (_ ∷ _) = false

-- `refresh_world_async`, of the thread `t`
unfoldable pub request_world : String → Thread → Shared → Outcome
request_world reason t s =
    if s.world_running
    then outcome (record s { pending_world = some reason }) t []
    else outcome (record s { pending_world = some reason; world_running = true }) t
        (world_top reason ∷ [])

-- `refresh_gamerules_async`
unfoldable pub request_rules : List String → Thread → Shared → Outcome
unfolding union
request_rules rules t s =
    let pending = union s.pending_rules (filter (λ r. contains r gamerules) rules) in
    if s.rules_running
    then outcome (record s { pending_rules = pending }) t []
    else outcome (record s { pending_rules = pending; rules_running = true }) t (rules_sleep ∷ [])

abbrev pub five_seconds : ℕ
five_seconds = 5 * 1000000

-- `request_telemetry_snapshot_async`
unfoldable pub request_snapshot : ℕ → Thread → Shared → Outcome
request_snapshot now t s =
    if s.sync_running || ltb now (s.last_request + five_seconds)
    then outcome s t []
    else outcome (record s { sync_running = true; last_request = now }) t (snapshot_run ∷ [])

abbrev pub or_reason : Option String → String → String
or_reason none reason = reason
or_reason (some pending) reason = if str_eq pending "" then reason else pending

-- `refresh`: the lock is taken, or the refresh is deferred.
abbrev pub try_refresh : String → Shared → Outcome
try_refresh reason s =
    if s.refresh_lock
    then outcome (record s { pending_full = some reason }) ended []
    else outcome (record s { refresh_lock = true; refreshing = true }) (full_run reason) []

-- The `finally` of `refresh`; an exception goes on to the end of the thread.
abbrev pub finish_refresh : Bool → String → Shared → Outcome
finish_refresh ok reason s =
    outcome (record (release_refresh_lock s) { refreshing = false })
      (if ok then full_after reason else ended) (deferred s.pending_full)

-- `work` of `refresh_world_async`
abbrev pub take_world : String → Shared → Outcome
take_world reason s =
    outcome (record s { pending_world = none })
      (elim s.pending_world [
        | none ↦ world_final reason
        | some pending ↦ world_wait reason pending
      ])
      []

abbrev pub lock_world : String → String → Shared → Outcome
lock_world reason pending s =
    if s.refresh_lock
    then outcome s (world_wait reason pending) []
    else outcome (record s { refresh_lock = true }) (world_hold reason pending) []

-- The `finally` of `refresh_world`
abbrev pub finish_world : Bool → String → Shared → Outcome
finish_world ok reason s =
    outcome (release_refresh_lock s) (if ok then world_top reason else world_final reason)
      (deferred s.pending_full)

abbrev pub leave_world : String → Shared → Outcome
leave_world reason s =
    outcome (record s { world_running = false })
      (if is_some s.pending_world then world_restart reason else ended) []

-- `work` of `refresh_gamerules_async`
abbrev pub take_rules : Shared → Outcome
take_rules s =
    outcome (record s { pending_rules = [] })
      (if is_empty s.pending_rules then rules_final else rules_wait s.pending_rules) []

abbrev pub lock_rules : List String → Shared → Outcome
lock_rules pending s =
    if s.refresh_lock
    then outcome s (rules_wait pending) []
    else outcome (record s { refresh_lock = true; refreshing = true }) (rules_hold pending) []

abbrev pub finish_rules : Bool → List String → Shared → Outcome
finish_rules ok pending s =
    outcome
      (record s {
        refresh_lock = false;
        refreshing = false;
        pending_rules = if ok then s.pending_rules else union s.pending_rules pending;
      })
      (if ok then rules_sleep else rules_final) []

abbrev pub leave_rules : Shared → Outcome
leave_rules s =
    outcome (record s { rules_running = false })
      (if is_empty s.pending_rules then ended else rules_restart) []

-- `work` of `request_telemetry_snapshot_async`
abbrev pub finish_snapshot : Shared → Outcome
finish_snapshot s = outcome (record s { sync_running = false }) ended []

-- The next step of a thread. `ok` says whether what it does while it holds the lock succeeds.
unfoldable pub advance : Bool → ℕ → Thread → Shared → Outcome
unfolding request_world request_rules request_snapshot union
advance ok now (full_start reason) s = try_refresh reason s
advance ok now (full_run reason) s = finish_refresh ok reason s
advance ok now (full_after reason) s = request_snapshot now ended s
advance ok now (world_top reason) s = take_world reason s
advance ok now (world_wait reason pending) s = lock_world reason pending s
advance ok now (world_hold reason pending) s = finish_world ok reason s
advance ok now (world_final reason) s = leave_world reason s
advance ok now (world_restart reason) s =
    outcome s (world_request (or_reason s.pending_world reason)) []
advance ok now (world_request reason) s = request_world reason ended s
advance ok now rules_sleep s = take_rules s
advance ok now (rules_wait pending) s = lock_rules pending s
advance ok now (rules_hold pending) s = finish_rules ok pending s
advance ok now rules_final s = leave_rules s
advance ok now rules_restart s = request_rules [] ended s
advance ok now snapshot_run s = finish_snapshot s
advance ok now ended s = outcome s ended []

pub record Service : Type 0 where
  pub shared : Shared
  pub threads : List Thread

abbrev pub idle : Service
idle = record {
  shared = record {
    refresh_lock = false;
    refreshing = false;
    pending_full = none;
    pending_world = none;
    world_running = false;
    pending_rules = [];
    rules_running = false;
    sync_running = false;
    last_request = 0;
  };
  threads = [];
}

pub data Step : Type 0 where
  to_refresh to_world : (reason : String) → Step
  to_rules : (rules : List String) → Step
  to_snapshot : (now : ℕ) → Step
  to_run : (thread : ℕ) (ok : Bool) (now : ℕ) → Step

unfoldable pub nth : ℕ → List Thread → Thread
nth i [] = ended
nth zero (t ∷ ts) = t
nth (suc i) (t ∷ ts) = nth i ts

unfoldable pub put : ℕ → Thread → List Thread → List Thread
put i t [] = []
put zero t (u ∷ ts) = t ∷ ts
put (suc i) t (u ∷ ts) = u ∷ put i t ts

-- A caller's thread is none of the service.
abbrev pub called : Outcome → List Thread → Service
called o ts = record { shared = o.shared; threads = ts ++ o.spawned }

unfoldable pub step : Step → Service → Service
unfolding advance request_world request_rules request_snapshot nth put
step (to_refresh reason) s = record s { threads = s.threads ++ full_start reason ∷ [] }
step (to_world reason) s = called (request_world reason ended s.shared) s.threads
step (to_rules rules) s = called (request_rules rules ended s.shared) s.threads
step (to_snapshot now) s = called (request_snapshot now ended s.shared) s.threads
step (to_run i ok now) s =
    let o = advance ok now (nth i s.threads) s.shared in
    record { shared = o.shared; threads = put i o.thread s.threads ++ o.spawned }

unfoldable pub steps : List Step → Service → Service
unfolding step
steps [] s = s
steps (x ∷ xs) s = steps xs (step x s)

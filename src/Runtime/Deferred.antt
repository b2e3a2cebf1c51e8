-- ===== src/Runtime/Deferred.antt =====
-- runtime/reconciliation.py: a deferred full refresh.
use craftcontrol.Base.{
  ℕ, ◌≡◌, refl, Bool, true, false, List, [], ◌∷◌, String, arith, inl, inr, Bool-cases, is_some,
}
use craftcontrol.Base.Rows.{count_where}
use craftcontrol.Runtime.{
  Thread, rules_sleep, rules_wait, rules_hold, rules_final, rules_restart, full_start, ended,
  Shared, Service, idle, Step, to_refresh, to_world, to_rules, to_snapshot, to_run, step, steps,
  advance, request_world, request_rules, request_snapshot, nth, put,
}
use craftcontrol.Runtime.Threads.{count, holds, count-append, count-put, nth-count}
use craftcontrol.Runtime.Workers.{steps-IsSafe}

unfoldable pub is_rules : Thread → Bool
is_rules rules_sleep = true
is_rules (rules_wait _) = true
is_rules (rules_hold _) = true
is_rules rules_final = true
is_rules rules_restart = true
is_rules _ = false

-- No step asks for game rules.
abbrev pub NoRules : List Step → Type 0
NoRules [] = Unit {0}
NoRules (to_rules _ ∷ xs) = ⊥
NoRules (to_refresh _ ∷ xs) = NoRules xs
NoRules (to_world _ ∷ xs) = NoRules xs
NoRules (to_snapshot _ ∷ xs) = NoRules xs
NoRules (to_run _ _ _ ∷ xs) = NoRules xs

record IsDeferred (s : Shared) (ts : List Thread) : Type 0 where
  no_rules : count is_rules ts ≡ 0
  deferred : is_some s.pending_full ≡ true → s.refresh_lock ≡ true

advance-no_rules :
    (ok : Bool) (now : ℕ) (t : Thread) (s : Shared)
    → is_rules t ≡ false
    → (is_rules (advance ok now t s).thread ≡ false)
      × (count is_rules (advance ok now t s).spawned ≡ 0)
unfolding advance is_rules count_where request_world request_rules request_snapshot
advance-no_rules ok now (full_start r) s h = ground (arith, h)
advance-no_rules ok now t s h = ground (arith, h)

advance-deferred :
    (ok : Bool) (now : ℕ) (t : Thread) (s : Shared)
    → is_rules t ≡ false
    → (is_some s.pending_full ≡ true → s.refresh_lock ≡ true)
    → is_some (advance ok now t s).shared.pending_full ≡ true
    → (advance ok now t s).shared.refresh_lock ≡ true
unfolding advance is_rules request_world request_rules request_snapshot
advance-deferred ok now (full_start r) s n h k = ground (arith, n, h, k)
advance-deferred ok now t s n h k = ground (arith, n, h, k)

run-IsDeferred :
    (i : ℕ) (ok : Bool) (now : ℕ) (s : Service)
    → IsDeferred s.shared s.threads
    → IsDeferred (step (to_run i ok now) s).shared (step (to_run i ok now) s).threads
unfolding step is_rules
run-IsDeferred i ok now s h =
    let t = nth i s.threads in
    let o = advance ok now t s.shared in
    let other : is_rules t ≡ false = elim (Bool-cases (is_rules t)) [
      | inr n ↦ n
      | inl y ↦ absurd (omega (arith, h.no_rules, nth-count is_rules i s.threads refl y))
    ] in
    let after = advance-no_rules ok now t s.shared other in
    record {
      no_rules = ground (
        arith,
        h.no_rules,
        after.0,
        after.1,
        other,
        count-append is_rules (put i o.thread s.threads) o.spawned,
        count-put is_rules i o.thread s.threads refl (stays ok now t s.shared),
      );
      deferred = advance-deferred ok now t s.shared other h.deferred;
    }
  where
    stays :
        (b : Bool) (n : ℕ) (u : Thread) (x : Shared) → u ≡ ended → (advance b n u x).thread ≡ ended
    stays b n u x e = rw e refl

refresh-IsDeferred :
    (reason : String) (s : Service)
    → IsDeferred s.shared s.threads
    → IsDeferred (step (to_refresh reason) s).shared (step (to_refresh reason) s).threads
unfolding step is_rules count_where request_world request_snapshot
refresh-IsDeferred reason s h = record {
  no_rules = ground (arith, h.no_rules, count-append is_rules s.threads (full_start reason ∷ []));
  deferred = λ k. ground (arith, k, h.deferred);
}

world-IsDeferred :
    (reason : String) (s : Service)
    → IsDeferred s.shared s.threads
    → IsDeferred (step (to_world reason) s).shared (step (to_world reason) s).threads
unfolding step is_rules count_where request_world request_snapshot
world-IsDeferred reason s h = record {
  no_rules = ground (
    arith,
    h.no_rules,
    count-append is_rules s.threads (request_world reason ended s.shared).spawned,
  );
  deferred = λ k. ground (arith, k, h.deferred);
}

snapshot-IsDeferred :
    (now : ℕ) (s : Service)
    → IsDeferred s.shared s.threads
    → IsDeferred (step (to_snapshot now) s).shared (step (to_snapshot now) s).threads
unfolding step is_rules count_where request_world request_snapshot
snapshot-IsDeferred now s h = record {
  no_rules = ground (
    arith,
    h.no_rules,
    count-append is_rules s.threads (request_snapshot now ended s.shared).spawned,
  );
  deferred = λ k. ground (arith, k, h.deferred);
}

steps-IsDeferred :
    (xs : List Step) (s : Service)
    → NoRules xs
    → IsDeferred s.shared s.threads
    → IsDeferred (steps xs s).shared (steps xs s).threads
unfolding steps
steps-IsDeferred [] s n h = h
steps-IsDeferred (to_rules rules ∷ xs) s n h = absurd n
steps-IsDeferred (to_refresh reason ∷ xs) s n h =
    steps-IsDeferred xs (step (to_refresh reason) s) n (refresh-IsDeferred reason s h)
steps-IsDeferred (to_world reason ∷ xs) s n h =
    steps-IsDeferred xs (step (to_world reason) s) n (world-IsDeferred reason s h)
steps-IsDeferred (to_snapshot now ∷ xs) s n h =
    steps-IsDeferred xs (step (to_snapshot now) s) n (snapshot-IsDeferred now s h)
steps-IsDeferred (to_run i ok now ∷ xs) s n h =
    steps-IsDeferred xs (step (to_run i ok now) s) n (run-IsDeferred i ok now s h)

-- After any interleaving in which no game rules are asked for, a deferred full refresh waits only while
-- one thread holds the lock.
pub steps-IsHeld :
    (xs : List Step)
    → NoRules xs
    → is_some (steps xs idle).shared.pending_full ≡ true
    → count holds (steps xs idle).threads ≡ 1
unfolding count_where
steps-IsHeld xs n k =
    let h = steps-IsDeferred xs idle n (record { no_rules = refl; deferred = λ p. cc }) in
    ground (arith, (steps-IsSafe xs).exclusive, h.deferred k)

-- ===== src/Runtime/Workers.antt =====
-- runtime/reconciliation.py: the refreshes exclude each other, each worker is single, and no request
-- is left without one.
use craftcontrol.Base.{
  ℕ, ◌+◌, ◌-◌, ◌≤◌, ◌≡◌, ◌⊎◌, refl, Bool, true, false, none, List, [], ◌∷◌, ◌++◌, String, arith,
  inl, inr, Bool-cases, Option-cases, List-cases, is_some,
}
use craftcontrol.Base.Rows.{count_where}
use craftcontrol.Runtime.{
  Thread, full_start, ended, Shared, Service, idle, Step, to_refresh, to_world, to_rules,
  to_snapshot, to_run, step, steps, advance, request_world, request_rules, request_snapshot, nth,
  put, is_empty,
}
use craftcontrol.Runtime.Threads.{
  count, bit, holds, works_world, restarts_world, works_rules, restarts_rules, syncs, count-append,
  count-put, nth-count, advance-holds, advance-works_world, advance-works_rules, advance-syncs,
  advance-world_kept, advance-rules_kept,
}

-- The lock and the flags say which threads there are, and a pending request has a worker or a thread
-- that starts one.
pub record IsSafe (s : Shared) (ts : List Thread) : Type 0 where
  pub exclusive : count holds ts ≡ bit s.refresh_lock
  pub world_single : count works_world ts ≡ bit s.world_running
  pub rules_single : count works_rules ts ≡ bit s.rules_running
  pub sync_single : count syncs ts ≡ bit s.sync_running
  pub world_kept :
      is_some s.pending_world ≡ true → 1 ≤ bit s.world_running + count restarts_world ts
  pub rules_kept :
      is_empty s.pending_rules ≡ false → 1 ≤ bit s.rules_running + count restarts_rules ts

bit-true : (b : Bool) (n : ℕ) → n ≡ bit b → 1 ≤ n → b ≡ true
bit-true true n e h = refl
bit-true false n e h = absurd (omega arith)

module _ (i : ℕ) (t : Thread) (us ts : List Thread) (e : nth i ts ≡ ended → t ≡ ended) where
  count-run :
      (p : Thread → Bool)
      → p ended ≡ false
      → count p (put i t ts ++ us) + bit (p (nth i ts)) ≡ count p ts + bit (p t) + count p us
  count-run p h = omega (arith, count-append p (put i t ts) us, count-put p i t ts h e)

module _ (ok : Bool) (now : ℕ) (s : Shared) (ts : List Thread) (h : IsSafe s ts) (i : ℕ) where
  stays_ended : nth i ts ≡ ended → (advance ok now (nth i ts) s).thread ≡ ended
  unfolding advance
  stays_ended e = rw e refl

  there : (p : Thread → Bool) → p ended ≡ false → bit (p (nth i ts)) ≤ count p ts
  there p e = elim (Bool-cases (p (nth i ts))) [
    | inl y ↦ rw y (nth-count p i ts e y)
    | inr n ↦ rw n (omega arith)
  ]

  run-IsSafe :
      IsSafe
        (advance ok now (nth i ts) s).shared
        (put i (advance ok now (nth i ts) s).thread ts ++ (advance ok now (nth i ts) s).spawned)
  unfolding holds works_world works_rules syncs restarts_world restarts_rules
  run-IsSafe =
      let t = nth i ts in
      let o = advance ok now t s in
      let after = λ (p : Thread → Bool) (q : p ended ≡ false).
        count-run i o.thread o.spawned ts stays_ended p q in
      let rules_on : (works_rules t ≡ true → s.rules_running ≡ true) =
        λ k. bit-true s.rules_running _ h.rules_single (nth-count works_rules i ts refl k) in
      record {
        exclusive = omega (
          arith,
          h.exclusive,
          after holds refl,
          advance-holds ok now s t
              (λ k. bit-true s.refresh_lock _ h.exclusive (nth-count holds i ts refl k)),
        );
        world_single = omega (
          arith,
          h.world_single,
          after works_world refl,
          advance-works_world ok now s t
              (λ k. bit-true s.world_running _ h.world_single (nth-count works_world i ts refl k)),
        );
        rules_single = omega (
          arith,
          h.rules_single,
          after works_rules refl,
          advance-works_rules ok now s t rules_on,
        );
        sync_single = omega (
          arith,
          h.sync_single,
          after syncs refl,
          advance-syncs ok now s t
              (λ k. bit-true s.sync_running _ h.sync_single (nth-count syncs i ts refl k)),
        );
        world_kept = λ k. omega (
          arith,
          after restarts_world refl,
          there restarts_world refl,
          advance-world_kept ok now s (count restarts_world ts - bit (restarts_world t)) t
              (λ p. omega (arith, h.world_kept p, there restarts_world refl)) k,
        );
        rules_kept = λ k. omega (
          arith,
          after restarts_rules refl,
          there restarts_rules refl,
          advance-rules_kept ok now s (count restarts_rules ts - bit (restarts_rules t)) t rules_on
              (λ p. omega (arith, h.rules_kept p, there restarts_rules refl)) k,
        );
      }

module _ (s : Shared) (ts us : List Thread) (h : IsSafe s ts) where
  -- Threads that are started next to the others, with the flags that go with them.
  called-IsSafe :
      (s' : Shared)
      → count holds us + bit s.refresh_lock ≡ bit s'.refresh_lock
      → count works_world us + bit s.world_running ≡ bit s'.world_running
      → count works_rules us + bit s.rules_running ≡ bit s'.rules_running
      → count syncs us + bit s.sync_running ≡ bit s'.sync_running
      → (is_some s'.pending_world ≡ true
          → (is_some s.pending_world ≡ true) ⊎ (s'.world_running ≡ true))
      → (is_empty s'.pending_rules ≡ false
          → (is_empty s.pending_rules ≡ false) ⊎ (s'.rules_running ≡ true))
      → IsSafe s' (ts ++ us)
  called-IsSafe s' a b c d w r = record {
    exclusive = omega (arith, a, h.exclusive, count-append holds ts us);
    world_single = omega (arith, b, h.world_single, count-append works_world ts us);
    rules_single = omega (arith, c, h.rules_single, count-append works_rules ts us);
    sync_single = omega (arith, d, h.sync_single, count-append syncs ts us);
    world_kept = λ k. elim (w k) [
      | inl old ↦ omega (arith, h.world_kept old, b, count-append restarts_world ts us)
      | inr on ↦ rw on (omega arith)
    ];
    rules_kept = λ k. elim (r k) [
      | inl old ↦ omega (arith, h.rules_kept old, c, count-append restarts_rules ts us)
      | inr on ↦ rw on (omega arith)
    ];
  }

module _ (s : Shared) (ts : List Thread) (h : IsSafe s ts) where
  request_world-IsSafe :
      (reason : String)
      → IsSafe (request_world reason ended s).shared (ts ++ (request_world reason ended s).spawned)
  unfolding request_world holds works_world works_rules syncs count_where
  request_world-IsSafe reason =
      called-IsSafe s ts (request_world reason ended s).spawned h
        (request_world reason ended s).shared (ground arith) (ground arith) (ground arith)
        (ground arith) (λ k. inr (ground arith)) (λ k. inl (ground (arith, k)))

  request_rules-IsSafe :
      (rules : List String)
      → IsSafe (request_rules rules ended s).shared (ts ++ (request_rules rules ended s).spawned)
  unfolding request_rules holds works_world works_rules syncs count_where
  request_rules-IsSafe rules =
      called-IsSafe s ts (request_rules rules ended s).spawned h
        (request_rules rules ended s).shared (ground arith) (ground arith) (ground arith)
        (ground arith) (λ k. inl (ground (arith, k))) (λ k. inr (ground arith))

  request_snapshot-IsSafe :
      (now : ℕ)
      → IsSafe (request_snapshot now ended s).shared (ts ++ (request_snapshot now ended s).spawned)
  unfolding request_snapshot holds works_world works_rules syncs count_where
  request_snapshot-IsSafe now =
      called-IsSafe s ts (request_snapshot now ended s).spawned h
        (request_snapshot now ended s).shared (ground arith) (ground arith) (ground arith)
        (ground arith) (λ k. inl (ground (arith, k))) (λ k. inl (ground (arith, k)))

step-IsSafe :
    (x : Step) (s : Service)
    → IsSafe s.shared s.threads
    → IsSafe (step x s).shared (step x s).threads
unfolding step holds works_world works_rules syncs count_where
step-IsSafe (to_refresh reason) s h =
    called-IsSafe s.shared s.threads (full_start reason ∷ []) h s.shared (ground arith)
      (ground arith) (ground arith) (ground arith) (λ k. inl k) (λ k. inl k)
step-IsSafe (to_world reason) s h = request_world-IsSafe s.shared s.threads h reason
step-IsSafe (to_rules rules) s h = request_rules-IsSafe s.shared s.threads h rules
step-IsSafe (to_snapshot now) s h = request_snapshot-IsSafe s.shared s.threads h now
step-IsSafe (to_run i ok now) s h = run-IsSafe ok now s.shared s.threads h i

steps-IsSafe_from :
    (xs : List Step) (s : Service)
    → IsSafe s.shared s.threads
    → IsSafe (steps xs s).shared (steps xs s).threads
unfolding steps
steps-IsSafe_from [] s h = h
steps-IsSafe_from (x ∷ xs) s h = steps-IsSafe_from xs (step x s) (step-IsSafe x s h)

-- After any interleaving of requests and of the steps of the threads, from an idle service, whatever
-- raises: exactly one thread holds the refresh lock while it is taken, and none while it is free;
-- each kind of worker has one thread while its flag is set, and none while it is not; and a pending
-- world refresh, and pending game rules, have a worker or a thread that is about to start one.
pub steps-IsSafe : (xs : List Step) → IsSafe (steps xs idle).shared (steps xs idle).threads
unfolding count_where
steps-IsSafe xs = steps-IsSafe_from xs idle (record {
  exclusive = refl;
  world_single = refl;
  rules_single = refl;
  sync_single = refl;
  world_kept = λ k. cc;
  rules_kept = λ k. cc;
})

abbrev pub is_ended : Thread → Bool
is_ended ended = true
is_ended _ = false

abbrev pub AllEnded : List Thread → Type 0
AllEnded [] = Unit {0}
AllEnded (t ∷ ts) = (is_ended t ≡ true) × AllEnded ts

pub count-AllEnded :
    (p : Thread → Bool) (ts : List Thread) → p ended ≡ false → AllEnded ts → count p ts ≡ 0
unfolding count_where
count-AllEnded p [] e a = refl
count-AllEnded p (t ∷ ts) e a = elim (Bool-cases (p t)) [
  | inr off ↦ rw off (count-AllEnded p ts e a.1)
  | inl on ↦ absurd (not_ended t e on a.0)
]
  where
    not_ended : (u : Thread) → p ended ≡ false → p u ≡ true → is_ended u ≡ true → ⊥
    not_ended ended e on k = ground (arith, e, on)
    not_ended (full_start r) e on k = cc
    not_ended u e on k = ground (arith, k)

-- What a service has left when its threads have ended.
pub record IsQuiet (s : Shared) : Type 0 where
  pub free : s.refresh_lock ≡ false
  pub no_worker : (s.world_running ≡ false) × (s.rules_running ≡ false) × (s.sync_running ≡ false)
  pub no_world : s.pending_world ≡ none
  pub no_rules : s.pending_rules ≡ []

bit-false : (b : Bool) (n : ℕ) → n ≡ bit b → n ≡ 0 → b ≡ false
bit-false false n e z = refl
bit-false true n e z = absurd (omega arith)

-- Once all threads have ended, after any interleaving, the lock is free, no flag is set, and no world
-- refresh and no game rule is pending.
pub steps-IsQuiet :
    (xs : List Step) → AllEnded (steps xs idle).threads → IsQuiet (steps xs idle).shared
unfolding holds works_world works_rules syncs restarts_world restarts_rules
steps-IsQuiet xs a =
    let h = steps-IsSafe xs in
    let s = (steps xs idle).shared in
    let ts = (steps xs idle).threads in
    let w = bit-false s.world_running _ h.world_single (count-AllEnded works_world ts refl a) in
    let r = bit-false s.rules_running _ h.rules_single (count-AllEnded works_rules ts refl a) in
    record {
      free = bit-false s.refresh_lock _ h.exclusive (count-AllEnded holds ts refl a);
      no_worker = (w, r, bit-false s.sync_running _ h.sync_single (count-AllEnded syncs ts refl a));
      no_world = elim (Option-cases s.pending_world) [
        | inl e ↦ e
        | inr (reason, e) ↦ absurd (
            ground (
              arith,
              w,
              e,
              h.world_kept (ground (arith, e)),
              count-AllEnded restarts_world ts refl a,
            ))
      ];
      no_rules = elim (List-cases s.pending_rules) [
        | inl e ↦ e
        | inr (x, rest, e) ↦ absurd (
            ground (
              arith,
              r,
              e,
              h.rules_kept (ground (arith, e)),
              count-AllEnded restarts_rules ts refl a,
            ))
      ];
    }

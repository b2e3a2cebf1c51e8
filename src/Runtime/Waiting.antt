-- ===== src/Runtime/Waiting.antt =====
-- runtime/reconciliation.py: a request that waits, in the shared state or with a thread, until a thread
-- does what it asks for.
use craftcontrol.Base.{
  ℕ, ◌+◌, ◌≤◌, ◌≡◌, refl, Bool, true, false, ◌||◌, List, [], ◌∷◌, ◌++◌, String, arith, inl, inr,
  Bool-cases,
}
use craftcontrol.Runtime.{
  Thread, full_start, ended, Shared, Service, Step, to_refresh, to_world, to_rules, to_snapshot,
  to_run, step, steps, advance, request_world, request_rules, request_snapshot, nth, put,
}
use craftcontrol.Runtime.Threads.{count, bit, count-append, count-put, nth-count}

-- The thread that a step runs, after the step.
abbrev pub ran : Step → Service → Thread
ran (to_run i ok now) s = (advance ok now (nth i s.threads) s.shared).thread
ran _ s = ended

-- Whether one of the steps takes a thread to a place.
unfoldable pub reaches : (Thread → Bool) → List Step → Service → Bool
unfolding step advance nth
reaches p [] s = false
reaches p (x ∷ xs) s = p (ran x s) || reaches p xs (step x s)

-- A request stands in `pend`, then with a thread in `waits`, until it is `met`.
module _ (pend : Shared → Bool) (waits met : Thread → Bool) where
  -- The request is waiting.
  abbrev pub Waiting : Service → Type 0
  Waiting s = 1 ≤ bit (pend s.shared) + count waits s.threads

  -- What each step must do for the request.
  pub record Passes : Type 0 where
    pub at_rest : waits ended ≡ false
    pub advances :
        (ok : Bool) (now : ℕ) (t : Thread) (s : Shared)
        → (pend s || waits t) ≡ true
        → let o = advance ok now t s in
          1
          ≤ bit (pend o.shared) + bit (waits o.thread) + count waits o.spawned + bit (met o.thread)
    pub keeps_world :
        (r : String) (s : Shared) → pend s ≡ true → pend (request_world r ended s).shared ≡ true
    pub keeps_rules :
        (rs : List String) (s : Shared)
        → pend s ≡ true
        → pend (request_rules rs ended s).shared ≡ true
    pub keeps_snapshot :
        (now : ℕ) (s : Shared) → pend s ≡ true → pend (request_snapshot now ended s).shared ≡ true

  module _ (h : Passes) where
    -- Threads that are started next to the others.
    called-Waiting :
        (s s' : Shared) (ts us : List Thread)
        → (pend s ≡ true → pend s' ≡ true)
        → 1 ≤ bit (pend s) + count waits ts
        → 1 ≤ bit (pend s') + count waits (ts ++ us)
    called-Waiting s s' ts us k w = elim (Bool-cases (pend s)) [
      | inl y ↦ rw (k y) (omega arith)
      | inr n ↦ ground (arith, n, w, count-append waits ts us)
    ]

    run-Waiting :
        (i : ℕ) (ok : Bool) (now : ℕ) (s : Service)
        → Waiting s
        → let o = advance ok now (nth i s.threads) s.shared in
          1
          ≤ bit (pend o.shared)
            + count waits (put i o.thread s.threads ++ o.spawned)
            + bit (met o.thread)
    run-Waiting i ok now s w =
        let t = nth i s.threads in
        let o = advance ok now t s.shared in
        let after = count-put waits i o.thread s.threads h.at_rest (stays ok now t s.shared) in
        let more = count-append waits (put i o.thread s.threads) o.spawned in
        let there : bit (waits t) ≤ count waits s.threads = elim (Bool-cases (waits t)) [
          | inl y ↦ rw y (nth-count waits i s.threads h.at_rest y)
          | inr n ↦ rw n (omega arith)
        ] in
        elim (Bool-cases (pend s.shared || waits t)) [
          | inl y ↦ omega (arith, after, more, there, h.advances ok now t s.shared y)
          | inr n ↦ ground (arith, after, more, n, w)
        ]
      where
        stays :
            (b : Bool) (n : ℕ) (u : Thread) (x : Shared)
            → u ≡ ended
            → (advance b n u x).thread ≡ ended
        stays b n u x e = unfold advance in rw e refl

    step-Waiting :
        (x : Step) (s : Service)
        → Waiting s
        → 1 ≤ bit (pend (step x s).shared) + count waits (step x s).threads + bit (met (ran x s))
    unfolding step
    step-Waiting (to_refresh r) s w =
        omega (arith, called-Waiting s.shared s.shared s.threads (full_start r ∷ []) (λ k. k) w)
    step-Waiting (to_world r) s w =
        let o = request_world r ended s.shared in
        omega
          (arith, called-Waiting s.shared o.shared s.threads o.spawned (h.keeps_world r s.shared) w)
    step-Waiting (to_rules rs) s w =
        let o = request_rules rs ended s.shared in
        omega (
          arith,
          called-Waiting s.shared o.shared s.threads o.spawned (h.keeps_rules rs s.shared) w,
        )
    step-Waiting (to_snapshot now) s w =
        let o = request_snapshot now ended s.shared in
        omega (
          arith,
          called-Waiting s.shared o.shared s.threads o.spawned (h.keeps_snapshot now s.shared) w,
        )
    step-Waiting (to_run i ok now) s w = run-Waiting i ok now s w

    pub steps-met :
        (xs : List Step) (s : Service)
        → Waiting s
        → pend (steps xs s).shared ≡ false
        → count waits (steps xs s).threads ≡ 0
        → reaches met xs s ≡ true
    unfolding steps reaches
    steps-met [] s w p n = absurd (ground (arith, w, p, n))
    steps-met (x ∷ xs) s w p n = elim (Bool-cases (met (ran x s))) [
      | inl y ↦ rw y refl
      | inr m ↦ rw m (steps-met xs (step x s) (ground (arith, step-Waiting x s w, m)) p n)
    ]

pub steps-append : (xs ys : List Step) (s : Service) → steps (xs ++ ys) s ≡ steps ys (steps xs s)
unfolding steps
steps-append [] ys s = refl
steps-append (x ∷ xs) ys s = steps-append xs ys (step x s)

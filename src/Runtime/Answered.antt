-- ===== src/Runtime/Answered.antt =====
-- runtime/reconciliation.py: every refresh that is asked for is carried out.
use craftcontrol.Base.{
  ◌≡◌, refl, ap, Bool, true, false, List, [], ◌∷◌, ◌++◌, String, arith, inl, inr, Bool-cases,
  is_some, any, filter, str_eq, str_eq_refl, All,
}
use craftcontrol.Base.Dict.{contains}
use craftcontrol.Base.Rows.{count_where}
use craftcontrol.Schema.Tables.{gamerules}
use craftcontrol.Runtime.{
  Thread, full_start, ended, Shared, Service, idle, Step, to_refresh, to_world, to_rules,
  to_snapshot, to_run, step, steps, request_world, request_rules,
}
use craftcontrol.Runtime.Threads.{count-append, holds}
use craftcontrol.Runtime.Workers.{AllEnded, count-AllEnded, steps-IsQuiet}
use craftcontrol.Runtime.Deferred.{NoRules, steps-IsHeld}
use craftcontrol.Runtime.Waiting.{reaches, Passes, steps-met, steps-append}
use craftcontrol.Runtime.Requests.{
  full_deferred, starts_full, runs_full, world_asked, waits_world, runs_world, rule_asked,
  waits_rule, runs_rule, full-Passes, world-Passes, rule-Passes, any-union,
}

-- The game rules of a request that the service knows.
abbrev pub known_rules : List String → List String
known_rules rules = filter (λ r. contains r gamerules) rules

-- After a request, one of the steps has a worker that holds the lock for the refresh of the world, or,
-- for each known game rule that was asked for, one that holds it for the query of that rule.
abbrev pub IsAnswered : Step → List Step → Service → Type 0
IsAnswered (to_world _) xs s = reaches runs_world xs s ≡ true
IsAnswered (to_rules rules) xs s = All (λ r. reaches (runs_rule r) xs s ≡ true) (known_rules rules)
IsAnswered _ xs s = Unit {0}

All-any :
    (P : String → Type 0) (l : List String)
    → ((r : String) → any (str_eq r) l ≡ true → P r)
    → All P l
All-any P [] h = tt
All-any P (x ∷ l) h =
    (h x (ground (arith, str_eq_refl x)), All-any P l (λ r k. h r (ground (arith, k))))

module _ (ys : List Step) (s : Service) (a : AllEnded (steps ys s).threads) where
  answered :
      (pend : Shared → Bool) (waits met : Thread → Bool)
      → Passes pend waits met
      → pend s.shared ≡ true
      → pend (steps ys s).shared ≡ false
      → reaches met ys s ≡ true
  answered pend waits met h w e =
      steps-met pend waits met h ys s (ground (arith, w)) e
        (count-AllEnded waits (steps ys s).threads h.at_rest a)

request_rules-asked :
    (r : String) (rules : List String) (s : Shared)
    → any (str_eq r) (known_rules rules) ≡ true
    → rule_asked r (request_rules rules ended s).shared ≡ true
unfolding request_rules
request_rules-asked r rules s h = ground (arith, h, any-union r s.pending_rules (known_rules rules))

-- Once all threads have ended, after any interleaving of requests and of the steps of the threads,
-- whatever raises: after each request of a world refresh a worker has held the lock to refresh the
-- world, and after each request of game rules one has held it to query each of them that is known.
pub steps-IsAnswered :
    (xs ys : List Step) (x : Step)
    → AllEnded (steps (xs ++ x ∷ ys) idle).threads
    → IsAnswered x ys (step x (steps xs idle))
unfolding step request_world steps
steps-IsAnswered xs ys x a =
    let quiet = steps-IsQuiet (xs ++ x ∷ ys) a in
    let e = steps-append xs (x ∷ ys) idle in
    let s = step x (steps xs idle) in
    ends x (rw e at a) (ap is_some (rw e at quiet.no_world))
      (λ r. ap (any (str_eq r)) (rw e at quiet.no_rules))
  where
    ends :
        (z : Step)
        → AllEnded (steps ys (step z (steps xs idle))).threads
        → world_asked (steps ys (step z (steps xs idle))).shared ≡ false
        → ((r : String) → rule_asked r (steps ys (step z (steps xs idle))).shared ≡ false)
        → IsAnswered z ys (step z (steps xs idle))
    ends (to_world reason) b w r =
        answered ys (step (to_world reason) (steps xs idle)) b world_asked waits_world runs_world
          world-Passes (ground arith) w
    ends (to_rules rules) b w r = All-any _ (known_rules rules) (λ q k.
        answered ys (step (to_rules rules) (steps xs idle)) b (rule_asked q) (waits_rule q)
          (runs_rule q) (rule-Passes q) (request_rules-asked q rules (steps xs idle).shared k)
          (r q))
    ends (to_refresh _) b w r = tt
    ends (to_snapshot _) b w r = tt
    ends (to_run _ _ _) b w r = tt

-- In an interleaving in which no game rules are asked for, once all threads have ended, after each
-- request of a full refresh a thread has held the lock for a full refresh: its own, or the one that
-- the release of the lock started for what was deferred.
pub steps-IsStarted :
    (xs ys : List Step) (reason : String)
    → NoRules (xs ++ to_refresh reason ∷ ys)
    → AllEnded (steps (xs ++ to_refresh reason ∷ ys) idle).threads
    → reaches runs_full ys (step (to_refresh reason) (steps xs idle)) ≡ true
unfolding step steps starts_full count_where holds
steps-IsStarted xs ys reason n a =
    let all = xs ++ to_refresh reason ∷ ys in
    let s = step (to_refresh reason) (steps xs idle) in
    let e = steps-append xs (to_refresh reason ∷ ys) idle in
    let none_held = count-AllEnded holds (steps all idle).threads refl a in
    let nothing : full_deferred (steps all idle).shared ≡ false =
      elim (Bool-cases (full_deferred (steps all idle).shared)) [
        | inr n' ↦ n'
        | inl y ↦ absurd (omega (arith, steps-IsHeld all n y, none_held))
      ] in
    steps-met full_deferred starts_full runs_full full-Passes ys s
      (ground (arith, count-append starts_full (steps xs idle).threads (full_start reason ∷ [])))
      (rw e at nothing) (count-AllEnded starts_full (steps ys s).threads refl (rw e at a))

-- ===== src/Runtime/Requests.antt =====
-- runtime/reconciliation.py: the requests of full refreshes, of refreshes of the world and of game rules,
-- and what each step makes of them.
use craftcontrol.Base.{
  ℕ, ◌+◌, ◌≤◌, ◌≡◌, refl, sym, Bool, true, false, ◌||◌, List, [], ◌∷◌, ◌++◌, String, arith, inl,
  inr, Bool-cases, is_some, any, filter, str_eq, eq_iff, if◌then◌else◌,
}
use craftcontrol.Base.Dict.{contains}
use craftcontrol.Base.Rows.{count_where}
use craftcontrol.Schema.Tables.{gamerules}
use craftcontrol.Runtime.{
  Thread, full_start, full_run, world_wait, world_hold, rules_wait, rules_hold, Shared, advance,
  request_world, request_rules, request_snapshot, union,
}
use craftcontrol.Runtime.Threads.{count, bit}
use craftcontrol.Runtime.Waiting.{Passes}

-- A full refresh: it is deferred, its thread starts, and the thread has the lock.
abbrev pub full_deferred : Shared → Bool
full_deferred s = is_some s.pending_full

unfoldable pub starts_full : Thread → Bool
starts_full (full_start _) = true
starts_full _ = false

unfoldable pub runs_full : Thread → Bool
runs_full (full_run _) = true
runs_full _ = false

-- A refresh of the world: it is pending, its worker waits for the lock, and has the lock.
abbrev pub world_asked : Shared → Bool
world_asked s = is_some s.pending_world

unfoldable pub waits_world : Thread → Bool
waits_world (world_wait _ _) = true
waits_world _ = false

unfoldable pub runs_world : Thread → Bool
runs_world (world_hold _ _) = true
runs_world _ = false

-- A game rule, alike.
abbrev pub rule_asked : String → Shared → Bool
rule_asked r s = any (str_eq r) s.pending_rules

unfoldable pub waits_rule : String → Thread → Bool
waits_rule r (rules_wait pending) = any (str_eq r) pending
waits_rule r _ = false

unfoldable pub runs_rule : String → Thread → Bool
runs_rule r (rules_hold pending) = any (str_eq r) pending
runs_rule r _ = false

pub full-Passes : Passes full_deferred starts_full runs_full
unfolding advance request_world request_rules request_snapshot starts_full runs_full count_where
full-Passes = record {
  at_rest = refl;
  advances = go;
  keeps_world = λ r s h. ground (arith, h);
  keeps_rules = λ rs s h. ground (arith, h);
  keeps_snapshot = λ now s h. ground (arith, h);
}
  where
    go :
        (ok : Bool) (now : ℕ) (t : Thread) (s : Shared)
        → (full_deferred s || starts_full t) ≡ true
        → let o = advance ok now t s in
          1
          ≤ bit (full_deferred o.shared)
            + bit (starts_full o.thread)
            + count starts_full o.spawned
            + bit (runs_full o.thread)
    go ok now (full_start r) s h = ground (arith, h)
    go ok now t s h = ground (arith, h)

pub world-Passes : Passes world_asked waits_world runs_world
unfolding advance request_world request_rules request_snapshot waits_world runs_world count_where
world-Passes = record {
  at_rest = refl;
  advances = go;
  keeps_world = λ r s h. ground (arith, h);
  keeps_rules = λ rs s h. ground (arith, h);
  keeps_snapshot = λ now s h. ground (arith, h);
}
  where
    go :
        (ok : Bool) (now : ℕ) (t : Thread) (s : Shared)
        → (world_asked s || waits_world t) ≡ true
        → let o = advance ok now t s in
          1
          ≤ bit (world_asked o.shared)
            + bit (waits_world o.thread)
            + count waits_world o.spawned
            + bit (runs_world o.thread)
    go ok now (full_start r) s h = ground (arith, h)
    go ok now t s h = ground (arith, h)

any-append : (p : String → Bool) (xs ys : List String) → any p (xs ++ ys) ≡ (any p xs || any p ys)
any-append p [] ys = refl
any-append p (x ∷ xs) ys = ground (arith, any-append p xs ys)

-- A union has what either list has.
pub any-union :
    (r : String) (xs ys : List String)
    → (any (str_eq r) xs || any (str_eq r) ys) ≡ true
    → any (str_eq r) (union xs ys) ≡ true
unfolding union
any-union r xs [] h = ground (arith, h)
any-union r xs (y ∷ ys) h =
    any-union r (if any (str_eq y) xs then xs else (xs ++ y ∷ [])) ys
      (elim (Bool-cases (any (str_eq y) xs)) [
        | inl old ↦ elim (Bool-cases (str_eq r y)) [
          | inl e ↦ rw old (ground (arith, old, rw (sym ((eq_iff r y).0 e)) at old))
          | inr n ↦ rw old (ground (arith, n, h))
        ]
        | inr new ↦ rw new (ground (arith, any-append (str_eq r) xs (y ∷ []), h))
      ])

pub rule-Passes : (r : String) → Passes (rule_asked r) (waits_rule r) (runs_rule r)
unfolding advance request_world request_rules request_snapshot waits_rule runs_rule count_where
rule-Passes r = record {
  at_rest = refl;
  advances = go;
  keeps_world = λ q s h. ground (arith, h);
  keeps_rules = λ rs s h.
      ground (arith, any-union r s.pending_rules (filter (λ x. contains x gamerules) rs), h);
  keeps_snapshot = λ now s h. ground (arith, h);
}
  where
    go :
        (ok : Bool) (now : ℕ) (t : Thread) (s : Shared)
        → (rule_asked r s || waits_rule r t) ≡ true
        → let o = advance ok now t s in
          1
          ≤ bit (rule_asked r o.shared)
            + bit (waits_rule r o.thread)
            + count (waits_rule r) o.spawned
            + bit (runs_rule r o.thread)
    go ok now (full_start q) s h = ground (arith, h)
    go ok now (rules_hold p) s h = ground (arith, h, any-union r s.pending_rules p)
    go ok now t s h = ground (arith, h)

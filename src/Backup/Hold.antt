-- ===== src/Backup/Hold.antt =====
-- operations/backup.py: the console commands of `create`, which holds the saves of a running server
-- while it copies the world. Each call of the console and each step of the copy answers or raises.
use craftcontrol.Base.{
  ℕ, zero, suc, ◌+◌, Bool, true, false, ◌||◌, List, [], ◌∷◌, ◌++◌, String, ◌==◌, if◌then◌else◌,
}
use craftcontrol.Operation.Worker.State.{Reply, answer, broken}
use Prim.Native.Char.{code}

pub data Command : Type 0 where
  hold query resume : Command

pub record Creation : Type 0 where
  pub server_running : Reply Bool
  pub hold_sent : Reply (Unit {0})
  -- what the n-th `save query` reads, in lower case
  pub query_output : ℕ → Reply String
  pub database : Reply (Unit {0})
  pub world : Reply (Unit {0})
  pub configuration : Reply (Unit {0})
  pub manifest : Reply (Unit {0})
  pub replace : Reply (Unit {0})
  pub permissions : Reply (Unit {0})
  pub resume_sent : Reply (Unit {0})

unfoldable pub starts_with : String → String → Bool
starts_with String.[] t = true
starts_with (String.◌∷◌ c s) String.[] = false
starts_with (String.◌∷◌ c s) (String.◌∷◌ d t) =
    let rest = starts_with s t in (if code c == code d then rest else false)

-- `s in t` of texts
unfoldable pub is_within : String → String → Bool
unfolding starts_with
is_within s String.[] = starts_with s String.[]
is_within s (String.◌∷◌ d t) = starts_with s (String.◌∷◌ d t) || is_within s t

abbrev pub is_ready : String → Bool
is_ready lowered =
    is_within "ready" lowered || is_within "files are now" lowered || is_within "prontos" lowered

-- What a part of `create` came to, with the commands that it sent.
pub record Sent : Type 0 where
  pub outcome : Reply (Unit {0})
  pub commands : List Command

abbrev pub after_query : Sent → Reply String → Sent
after_query rest (broken e) = record { outcome = broken e; commands = query ∷ [] }
after_query rest (answer output) =
    if is_ready output
    then record { outcome = answer tt; commands = query ∷ [] }
    else record { outcome = rest.outcome; commands = query ∷ rest.commands }

abbrev pub succeeds : Reply (Unit {0}) → Bool
succeeds (answer _) = true
succeeds (broken _) = false

unfoldable pub queries : ℕ → List Command
queries zero = []
queries (suc n) = query ∷ queries n

module _ (c : Creation) where
  -- The rounds that are left of `_wait_until_ready`, from the n-th query.
  unfoldable pub wait_rounds : ℕ → ℕ → Sent
  unfolding is_within
  wait_rounds zero n = record {
    outcome = broken "Bedrock did not confirm save hold readiness";
    commands = [];
  }
  wait_rounds (suc left) n =
      let rest = wait_rounds left (n + 1) in after_query rest (c.query_output n)

  -- `_wait_until_ready`
  abbrev pub wait_until_ready : Sent
  wait_until_ready = wait_rounds 10 0

  -- A step of the copy, after those before it.
  abbrev pub then_do : Reply (Unit {0}) → Reply (Unit {0}) → Reply (Unit {0})
  then_do (broken e) next = broken e
  then_do (answer _) next = next

  abbrev pub copy : Reply (Unit {0}) → Reply (Unit {0})
  copy before =
      then_do
        (then_do
          (then_do (then_do (then_do (then_do before c.database) c.world) c.configuration)
            c.manifest)
          c.replace)
        c.permissions

  -- The `finally` of a server that is held.
  abbrev pub let_go : Sent → Sent
  let_go s = record {
    outcome = then_do c.resume_sent s.outcome;
    commands = s.commands ++ resume ∷ [];
  }

  abbrev pub held : Sent → Sent
  held waited = let_go (record { outcome = copy waited.outcome; commands = hold ∷ waited.commands })

  abbrev pub on_hold : Reply (Unit {0}) → Sent
  on_hold (broken e) = record { outcome = broken e; commands = hold ∷ [] }
  on_hold (answer _) = held wait_until_ready

  abbrev pub on_running : Reply Bool → Sent
  on_running (broken e) = record { outcome = broken e; commands = [] }
  on_running (answer false) = record { outcome = copy (answer tt); commands = [] }
  on_running (answer true) = on_hold c.hold_sent

  -- The `try` of `create`
  unfoldable pub create : Sent
  unfolding wait_rounds
  create = on_running c.server_running

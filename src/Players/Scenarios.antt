-- ===== src/Players/Scenarios.antt =====
-- Concrete players, and the theorems at them.
use craftcontrol.Base.{
  zero, suc, ℕ, ◌+◌, ◌*◌, ◌/◌, ◌≡◌, refl, true, false, none, some, List, [], ◌∷◌, map, String,
  arith,
}
use craftcontrol.Base.Rows.{total}
use craftcontrol.Players.{Locale, empty}
use craftcontrol.Players.Marks.{Call, calls, to_observe, to_close, to_die, to_permit}
use craftcontrol.Players.Balance.{closed_play}
use craftcontrol.Players.Balance.Accounts.{Balanced}
use craftcontrol.Players.Balance.Calls.{calls-Balanced}

-- A day of a hundred seconds, and texts that have no upper case.
abbrev hundred_seconds : Locale
hundred_seconds = record {
  casefold = λ s. s;
  lower = λ s. s;
  day_key = λ t. if_first (t / 100);
  next_midnight = λ t. (t / 100 + 1) * 100;
  later_midnight = λ t. omega arith;
}
  where
    if_first : ℕ → String
    if_first n = elim n [ zero ↦ "day 0" | suc _ ↦ "later" ]

abbrev visits : List Call
visits =
    to_observe "ana" true "" "bedrock-log" none 10
    ∷ to_observe "bia" true "7" "bedrock-log" none 20
    ∷ to_observe "ana" false "" "bedrock-log" none 150
    ∷ to_permit "bia" "operator" "manager" 160
    ∷ to_die "bia" "drowned" "bia drowned" "bedrock-log" "k" 170
    ∷ to_close "docker.die" "docker-events" 180
    ∷ []

visits_played :
    map (λ r. r.1.total_play_seconds) (calls hundred_seconds visits empty).profiles ≡ 140 ∷ 160 ∷ []
unfolding calls
visits_played = refl

calls-Balanced_example : Balanced (calls hundred_seconds visits empty)
calls-Balanced_example = calls-Balanced hundred_seconds visits

-- Bia, known by her account, is seen under a new name before her account id is known for it. The
-- profile of that name is merged when the id comes: its session is kept, its time is lost.
abbrev renamed : List Call
renamed =
    to_observe "bia" true "7" "bedrock-log" none 20
    ∷ to_observe "bia" false "7" "bedrock-log" none 30
    ∷ to_observe "bea" true "" "bedrock-log" none 40
    ∷ to_observe "bea" false "" "bedrock-log" none 90
    ∷ to_observe "bea" true "7" "bedrock-log" none 95
    ∷ []

time_lost :
    (map (λ r. r.1.total_play_seconds) (calls hundred_seconds renamed empty).profiles ≡ 10 ∷ [])
    × (closed_play "xuid:7" (calls hundred_seconds renamed empty).sessions ≡ 60)
unfolding calls total
time_lost = (refl, refl)

-- The same without the second disconnection: the session of the temporary identity stays open, and
-- the one of the account is opened beside it.
abbrev renamed_online : List Call
renamed_online =
    to_observe "bia" true "7" "bedrock-log" none 20
    ∷ to_observe "bia" false "7" "bedrock-log" none 30
    ∷ to_observe "bea" true "" "bedrock-log" none 40
    ∷ to_observe "bea" true "7" "bedrock-log" none 45
    ∷ to_observe "bea" false "7" "bedrock-log" none 90
    ∷ []

left_open :
    map (λ s. s.disconnected_at) (calls hundred_seconds renamed_online empty).sessions
    ≡ some 30 ∷ none ∷ some 90 ∷ []
unfolding calls
left_open = refl

-- ===== src/Players.antt =====
-- apps/server/controlplane/src/players/sqlite.py: the rows of the player tables, the identities of
-- players and the daily counters.
-- Times and REAL columns are numbers of millionths. The tables with a single key are dicts.
pub mod Presence
pub mod Marks
mod Sums
mod Days
mod Open
pub mod Balance
mod Scenarios
use craftcontrol.Base.{
  ℕ, zero, suc, ◌+◌, ◌-◌, ◌<◌, min, max, Bool, true, false, ◌&&◌, ◌||◌, Option, none, some, List,
  [], ◌∷◌, ◌++◌, String, concat, str_eq, ltb, ◌==◌, if◌then◌else◌, any, filter,
}
use craftcontrol.Base.Dict.{Dict, lookup, contains, insert, remove}
use craftcontrol.Base.Rows.{update_where, delete_where, upsert}
use craftcontrol.Base.Value.{Value}

-- What the code asks of Python's `str.casefold`, SQLite's `lower` and the calendar of the time zone.
pub record Locale : Type 0 where
  pub casefold : String → String
  pub lower : String → String
  pub day_key : ℕ → String
  pub next_midnight : ℕ → ℕ
  pub later_midnight : (t : ℕ) → t < next_midnight t

pub record Profile : Type 0 where
  pub xuid : Option String
  pub current_name : String
  pub first_seen_at : ℕ
  pub last_seen_at : ℕ
  pub online : Bool
  pub connected_at : Option ℕ
  pub sessions_count : ℕ
  pub total_play_seconds : ℕ
  pub deaths_count : ℕ
  pub last_death_at : Option ℕ
  pub permission : String
  pub preferred_game_mode : Option String

pub record Alias : Type 0 where
  pub identity : String
  pub name : String
  pub first_seen_at : ℕ
  pub last_seen_at : ℕ

pub record Session : Type 0 where
  pub id : ℕ
  pub identity : String
  pub connected_at : ℕ
  pub disconnected_at : Option ℕ
  pub duration_seconds : Option ℕ
  pub close_reason : Option String
  pub inferred : Bool

pub record History : Type 0 where
  pub identity : String
  pub topic : String
  pub occurred_at : ℕ
  pub source : String
  pub payload : Dict Value
  pub event_key : Option String

pub record Telemetry : Type 0 where
  pub stats : Dict Value
  pub sequence : ℕ
  pub updated_at : ℕ

-- The counters of a day, ALLOWED_DAILY_FIELDS.
pub record Counters : Type 0 where
  pub play_seconds : ℕ
  pub sessions : ℕ
  pub joins : ℕ
  pub deaths : ℕ
  pub player_kills : ℕ
  pub mob_kills : ℕ
  pub blocks_broken : ℕ
  pub blocks_placed : ℕ
  pub damage_dealt : ℕ
  pub damage_taken : ℕ
  pub distance : ℕ
  pub dimension_transitions : ℕ

pub record Daily : Type 0 where
  pub identity : String
  pub day : String
  pub counters : Counters
  pub updated_at : ℕ

pub record Tables : Type 0 where
  pub profiles : Dict Profile
  pub aliases : List Alias
  pub sessions : List Session
  pub next_session : ℕ
  pub history : List History
  pub telemetry : Dict Telemetry
  pub daily : List Daily

-- A database in which no player has been seen.
abbrev pub empty : Tables
empty = record {
  profiles = [];
  aliases = [];
  sessions = [];
  next_session = 1;
  history = [];
  telemetry = [];
  daily = [];
}

abbrev pub no_counters : Counters
no_counters = record {
  play_seconds = 0;
  sessions = 0;
  joins = 0;
  deaths = 0;
  player_kills = 0;
  mob_kills = 0;
  blocks_broken = 0;
  blocks_placed = 0;
  damage_dealt = 0;
  damage_taken = 0;
  distance = 0;
  dimension_transitions = 0;
}

unfoldable pub add_counters : Counters → Counters → Counters
add_counters a b = record {
  play_seconds = a.play_seconds + b.play_seconds;
  sessions = a.sessions + b.sessions;
  joins = a.joins + b.joins;
  deaths = a.deaths + b.deaths;
  player_kills = a.player_kills + b.player_kills;
  mob_kills = a.mob_kills + b.mob_kills;
  blocks_broken = a.blocks_broken + b.blocks_broken;
  blocks_placed = a.blocks_placed + b.blocks_placed;
  damage_dealt = a.damage_dealt + b.damage_dealt;
  damage_taken = a.damage_taken + b.damage_taken;
  distance = a.distance + b.distance;
  dimension_transitions = a.dimension_transitions + b.dimension_transitions;
}

-- `not filtered`: no value is above zero
unfoldable pub is_empty : Counters → Bool
is_empty c =
    (c.play_seconds == 0)
    && (c.sessions == 0)
    && (c.joins == 0)
    && (c.deaths == 0)
    && (c.player_kills == 0)
    && (c.mob_kills == 0)
    && (c.blocks_broken == 0)
    && (c.blocks_placed == 0)
    && (c.damage_dealt == 0)
    && (c.damage_taken == 0)
    && (c.distance == 0)
    && (c.dimension_transitions == 0)

abbrev pub is_day : String → String → Daily → Bool
is_day identity day d = str_eq d.identity identity && str_eq d.day day

abbrev pub is_of : String → String → Bool
is_of identity row_identity = str_eq row_identity identity

module _ (l : Locale) where
  -- The row of the day is inserted with zeros if it is not there, and then updated.
  unfoldable pub add_daily : String → ℕ → Counters → List Daily → List Daily
  unfolding is_empty add_counters upsert
  add_daily identity timestamp values ds =
      let day = l.day_key timestamp in
      if is_empty values
      then ds
      else upsert (is_day identity day)
          (record {
            identity = identity;
            day = day;
            counters = add_counters no_counters values;
            updated_at = timestamp;
          })
          (λ d. record d { counters = add_counters d.counters values; updated_at = timestamp }) ds

  -- The loop of `allocate_daily_play`. Each round moves the cursor, so that `end - cursor` rounds
  -- are enough.
  unfoldable pub allocate : ℕ → String → ℕ → ℕ → List Daily → List Daily
  unfolding add_daily
  allocate zero identity cursor end ds = ds
  allocate (suc fuel) identity cursor end ds = elim (ltb cursor end) [
    | false ↦ ds
    | true ↦
        let boundary = min end (l.next_midnight cursor) in
        allocate fuel identity boundary end
          (add_daily identity cursor (record no_counters { play_seconds = boundary - cursor }) ds)
  ]

  unfoldable pub allocate_daily_play : String → ℕ → ℕ → List Daily → List Daily
  unfolding allocate
  allocate_daily_play identity started_at ended_at ds =
      let end = max started_at ended_at in allocate (end - started_at) identity started_at end ds

-- `_merge_daily_records`: the rows of the temporary identity are added to those of the other one.
unfoldable pub merge_rows : String → String → List Daily → List Daily → List Daily
unfolding add_counters upsert
merge_rows temporary canonical [] ds = ds
merge_rows temporary canonical (r ∷ rs) ds = merge_rows temporary canonical rs (
    if is_of temporary r.identity
    then upsert (is_day canonical r.day) (record r { identity = canonical })
        (λ d. record d {
          counters = add_counters d.counters r.counters;
          updated_at = max d.updated_at r.updated_at;
        })
        ds
    else ds)

unfoldable pub merge_daily_records : String → String → List Daily → List Daily
unfolding merge_rows delete_where
merge_daily_records temporary canonical ds =
    delete_where (λ d. is_of temporary d.identity) (merge_rows temporary canonical ds ds)

unfoldable pub move_sessions : String → String → List Session → List Session
unfolding update_where
move_sessions from to ss =
    update_where (λ s. is_of from s.identity) (λ s. record s { identity = to }) ss

unfoldable pub move_history : String → String → List History → List History
unfolding update_where
move_history from to hs =
    update_where (λ h. is_of from h.identity) (λ h. record h { identity = to }) hs

abbrev pub is_alias : String → String → Alias → Bool
is_alias identity name a = str_eq a.identity identity && str_eq a.name name

-- The aliases of one identity are added to those of another.
unfoldable pub merge_aliases : String → String → List Alias → List Alias → List Alias
unfolding upsert
merge_aliases temporary canonical [] xs = xs
merge_aliases temporary canonical (a ∷ rest) xs = merge_aliases temporary canonical rest (
    if is_of temporary a.identity
    then upsert (is_alias canonical a.name) (record a { identity = canonical })
        (λ b. record b {
          first_seen_at = min b.first_seen_at a.first_seen_at;
          last_seen_at = max b.last_seen_at a.last_seen_at;
        })
        xs
    else xs)

-- Whether the telemetry of the temporary identity is newer than that of the other one.
unfoldable pub is_newer : Telemetry → Option Telemetry → Bool
is_newer t none = true
is_newer t (some c) =
    ltb c.updated_at t.updated_at || (t.updated_at == c.updated_at && ltb c.sequence t.sequence)

unfoldable pub merge_telemetry : String → String → Dict Telemetry → Dict Telemetry
unfolding lookup insert remove is_newer
merge_telemetry temporary canonical ts = remove temporary (elim (lookup temporary ts) [
  | none ↦ ts
  | some t ↦ if is_newer t (lookup canonical ts) then insert canonical t ts else ts
])

-- `_merge_temporary_player`
unfoldable pub merge_temporary_player : String → String → Tables → Tables
unfolding remove delete_where merge_aliases move_sessions move_history merge_telemetry
    merge_daily_records
merge_temporary_player temporary canonical t = record t {
  aliases =
      delete_where (λ a. is_of temporary a.identity)
        (merge_aliases temporary canonical t.aliases t.aliases);
  sessions = move_sessions temporary canonical t.sessions;
  history =
      delete_where (λ h. is_of temporary h.identity) (move_history temporary canonical t.history);
  telemetry = merge_telemetry temporary canonical t.telemetry;
  daily = merge_daily_records temporary canonical t.daily;
  profiles = remove temporary t.profiles;
}

unfoldable pub move_telemetry : String → String → Dict Telemetry → Dict Telemetry
unfolding lookup insert remove
move_telemetry from to ts = elim (lookup from ts) [
  | none ↦ ts
  | some x ↦ insert to x (remove from ts)
]

-- The rows of a temporary identity get the identity that the account id gives.
unfoldable pub promote : String → String → String → Profile → Tables → Tables
unfolding insert remove update_where move_sessions move_history move_telemetry merge_daily_records
promote temporary identity xuid p t = record t {
  profiles = insert identity (record p { xuid = some xuid }) (remove temporary t.profiles);
  aliases =
      update_where (λ a. is_of temporary a.identity) (λ a. record a { identity = identity })
        t.aliases;
  sessions = move_sessions temporary identity t.sessions;
  history = move_history temporary identity t.history;
  telemetry = move_telemetry temporary identity t.telemetry;
  daily = merge_daily_records temporary identity t.daily;
}

-- The branches of `player_identity` for a temporary profile and a profile with the account id.
unfoldable pub unify : String → String → String → Option Profile → Bool → Tables → Tables
unfolding promote merge_temporary_player
unify temporary identity xuid none target t = t
unify temporary identity xuid (some p) target t =
    if target
    then merge_temporary_player temporary identity t
    else promote temporary identity xuid p t

module _ (l : Locale) where
  abbrev pub temporary_identity : String → String
  temporary_identity name = concat "name:" (l.casefold name)

  abbrev pub has_name : String → Tables → String × Profile → Bool
  has_name name t (identity, p) =
      str_eq (l.lower p.current_name) (l.lower name)
      || any (λ a. is_of identity a.identity && str_eq (l.lower a.name) (l.lower name)) t.aliases

  -- `ORDER BY p.last_seen_at DESC LIMIT 1`
  unfoldable pub last_seen : Dict Profile → Option (String × Profile)
  last_seen [] = none
  last_seen ((i, p) ∷ ps) = elim (last_seen ps) [
    | none ↦ some (i, p)
    | some (j, q) ↦ if ltb p.last_seen_at q.last_seen_at then some (j, q) else some (i, p)
  ]

  abbrev pub found : String → Option (String × Profile) → String
  found name none = temporary_identity name
  found name (some (identity, _)) = identity

  unfoldable pub player_identity : String → String → Tables → Tables × String
  unfolding lookup unify last_seen
  player_identity name xuid t =
      if str_eq xuid ""
      then (t, found name (last_seen (filter (has_name name t) t.profiles)))
      else let identity = concat "xuid:" xuid in
        let temporary = temporary_identity name in
        if str_eq temporary identity then (t, identity) else (
          unify temporary identity xuid (lookup temporary t.profiles) (contains identity t.profiles)
              t,
          identity,
        )

abbrev pub has_key : Option String → History → Bool
has_key none h = false
has_key (some k) h = elim h.event_key [ none ↦ false | some j ↦ str_eq j k ]

-- `record_player_history`, with whether the row was inserted
unfoldable pub record_player_history : History → List History → List History × Bool
record_player_history h hs =
    if any (has_key h.event_key) hs then (hs, false) else (hs ++ h ∷ [], true)

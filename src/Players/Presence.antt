-- ===== src/Players/Presence.antt =====
-- apps/server/controlplane/src/players/repository.py: the presence of players, their deaths, their
-- permissions and their game mode.
use craftcontrol.Base.{
  ℕ, ◌+◌, ◌-◌, ◌==◌, ◌&&◌, Bool, true, false, not, Option, none, some, [], ◌∷◌, ◌++◌, String,
  str_eq, if◌then◌else◌, is_some,
}
use craftcontrol.Base.Dict.{Dict, lookup, insert}
use craftcontrol.Base.Rows.{upsert, find_last, update_last}
use craftcontrol.Base.Value.{Value, text}
use craftcontrol.Players.{
  Locale, Profile, Session, History, Counters, Tables, no_counters, is_alias, add_daily,
  allocate_daily_play, player_identity, record_player_history,
}

-- `occurred_at or time.time()`
abbrev pub or_clock : Option ℕ → ℕ → ℕ
or_clock none clock = clock
or_clock (some t) clock = if t == 0 then clock else t

abbrev pub or_none : String → Option String
or_none xuid = if str_eq xuid "" then none else some xuid

abbrev pub coalesce : Option String → Option String → Option String
coalesce (some x) old = some x
coalesce none old = old

abbrev pub is_online : Option Profile → Bool
is_online none = false
is_online (some p) = p.online

-- The `CASE` of `connected_at`
abbrev pub next_connected : Bool → Profile → ℕ → Option ℕ
next_connected connected p now =
    if connected then (if p.online then p.connected_at else some now) else none

-- A row of `player_profiles` with its defaults.
abbrev pub new_profile : String → ℕ → Profile
new_profile name now = record {
  xuid = none;
  current_name = name;
  first_seen_at = now;
  last_seen_at = now;
  online = false;
  connected_at = none;
  sessions_count = 0;
  total_play_seconds = 0;
  deaths_count = 0;
  last_death_at = none;
  permission = "member";
  preferred_game_mode = none;
}

abbrev pub seen_profile : String → Bool → String → ℕ → Option Profile → Profile
seen_profile name connected xuid now none = record (new_profile name now) {
  xuid = or_none xuid;
  online = connected;
  connected_at = if connected then some now else none;
}
seen_profile name connected xuid now (some p) = record p {
  xuid = coalesce (or_none xuid) p.xuid;
  current_name = name;
  last_seen_at = now;
  online = connected;
  connected_at = next_connected connected p now;
}

-- `UPDATE player_profiles SET … WHERE identity=?`
unfoldable pub modify : String → (Profile → Profile) → Dict Profile → Dict Profile
unfolding lookup insert
modify identity f ps = elim (lookup identity ps) [ none ↦ ps | some p ↦ insert identity (f p) ps ]

abbrev pub is_open : String → Session → Bool
is_open identity s = str_eq s.identity identity && not (is_some s.disconnected_at)

abbrev pub ended : ℕ → ℕ → String → Session → Session
ended now duration reason s = record s {
  disconnected_at = some now;
  duration_seconds = some duration;
  close_reason = some reason;
}

abbrev pub event : String → String → ℕ → String → Dict Value → Option String → History
event identity topic now source payload key = record {
  identity = identity;
  topic = topic;
  occurred_at = now;
  source = source;
  payload = payload;
  event_key = key;
}

unfoldable pub note : String → String → ℕ → String → Dict Value → Tables → Tables
unfolding record_player_history
note identity topic now source payload t = record t {
  history = (record_player_history (event identity topic now source payload none) t.history).0;
}

abbrev pub joined : Counters
joined = record no_counters { sessions = 1; joins = 1 }

abbrev pub topic_of : Bool → String
topic_of connected = if connected then "player.connected" else "player.disconnected"

abbrev pub changes : Bool → Bool → Bool
changes was_online connected = if connected then not was_online else was_online

abbrev pub write_seen : String → String → Bool → String → ℕ → Tables → Tables
write_seen identity name connected xuid now t = record t {
  profiles =
      insert identity (seen_profile name connected xuid now (lookup identity t.profiles))
        t.profiles;
  aliases =
      upsert (is_alias identity name)
        (record { identity = identity; name = name; first_seen_at = now; last_seen_at = now })
        (λ a. record a { last_seen_at = now }) t.aliases;
}

pub record Seen : Type 0 where
  pub identity : String
  pub changed : Bool

module _ (l : Locale) where
  -- The player has come.
  unfoldable pub open_session : String → ℕ → Tables → Tables
  unfolding modify add_daily
  open_session identity now t = record t {
    sessions =
        t.sessions
        ++ record {
          id = t.next_session;
          identity = identity;
          connected_at = now;
          disconnected_at = none;
          duration_seconds = none;
          close_reason = none;
          inferred = false;
        }
          ∷ [];
    next_session = t.next_session + 1;
    profiles = modify identity (λ p. record p { sessions_count = p.sessions_count + 1 }) t.profiles;
    daily = add_daily l identity now joined t.daily;
  }

  abbrev pub close_found : String → ℕ → Option Session → Tables → Tables
  close_found identity now none t = t
  close_found identity now (some s) t =
      let duration = now - s.connected_at in
      record t {
        sessions = update_last (is_open identity) (ended now duration "disconnect") t.sessions;
        profiles =
            modify identity (λ p. record p { total_play_seconds = p.total_play_seconds + duration })
              t.profiles;
        daily = allocate_daily_play l identity s.connected_at now t.daily;
      }

  -- The player has gone.
  unfoldable pub close_session : String → ℕ → Tables → Tables
  unfolding modify find_last update_last allocate_daily_play
  close_session identity now t =
      close_found identity now (find_last (is_open identity) t.sessions) t

  -- After `player_identity`; the result says whether the presence changed.
  unfoldable pub observe_identity :
      String → String → Bool → String → String → ℕ → Tables → Tables × Bool
  unfolding lookup insert upsert open_session close_session note
  observe_identity identity name connected xuid source now t =
      let was_online = is_online (lookup identity t.profiles) in
      let seen = write_seen identity name connected xuid now t in
      if changes was_online connected
      then (
        note identity (topic_of connected) now source (("name", text name) ∷ [])
            (if connected then open_session identity now seen else close_session identity now seen),
        true,
      )
      else (seen, false)

  -- `observe_player`
  unfoldable pub observe_player :
      String → Bool → String → String → Option ℕ → ℕ → Tables → Tables × Seen
  unfolding player_identity observe_identity
  observe_player name connected xuid source occurred_at clock t =
      let now = or_clock occurred_at clock in
      let (t1, identity) = player_identity l name xuid t in
      let (t2, changed) = observe_identity identity name connected xuid source now t1 in
      (t2, record { identity = identity; changed = changed })

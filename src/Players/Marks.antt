-- ===== src/Players/Marks.antt =====
-- apps/server/controlplane/src/players/repository.py: the reconciliation of the players that are
-- online, their deaths, their permissions and their game mode, and a history of such calls. A call is
-- one step: what another connection commits between the reads of a call and its first write is left out.
-- A reconciliation is the calls of `observe_player` that it makes, one after the other.
use craftcontrol.Base.{
  ℕ, ◌+◌, ◌-◌, ◌==◌, Bool, true, false, Option, none, some, List, [], ◌∷◌, map, String, str_eq,
  if◌then◌else◌, any, filter,
}
use craftcontrol.Base.Dict.{Dict, lookup, insert}
use craftcontrol.Base.Rows.{update_last}
use craftcontrol.Base.Value.{text, bool}
use craftcontrol.Players.{
  Locale, Profile, Counters, Tables, no_counters, add_daily, allocate_daily_play, player_identity,
  record_player_history,
}
use craftcontrol.Players.Presence.{new_profile, modify, is_open, ended, event, note, observe_player}

abbrev pub is_online_row : String × Profile → Bool
is_online_row (identity, p) = p.online

-- `SELECT … FROM player_profiles WHERE online=1`
abbrev pub online_rows : Dict Profile → List (String × Profile)
online_rows ps = filter is_online_row ps

abbrev pub xuid_of : Option String → String
xuid_of none = ""
xuid_of (some xuid) = xuid

abbrev pub time_or : Option ℕ → ℕ → ℕ
time_or none now = now
time_or (some t) now = if t == 0 then now else t

-- A profile for an identity that has none.
unfoldable pub ensure_profile : String → Profile → Dict Profile → Dict Profile
unfolding lookup insert
ensure_profile identity fresh ps = elim (lookup identity ps) [
  | none ↦ insert identity fresh ps
  | some p ↦ ps
]

abbrev pub died : Counters
died = record no_counters { deaths = 1 }

abbrev pub has_permission : String → Option Profile → Bool
has_permission permission none = false
has_permission permission (some p) = str_eq p.permission permission

abbrev pub write_permission : String → String → String → ℕ → Dict Profile → Dict Profile
write_permission identity name permission now ps = elim (lookup identity ps) [
  | none ↦ insert identity (record (new_profile name now) { permission = permission }) ps
  | some p ↦ modify identity (λ q. record q { permission = permission }) ps
]

abbrev pub mode_of : Option Profile → Option String
mode_of none = none
mode_of (some p) = p.preferred_game_mode

-- A call of the repository that changes the tables.
pub data Call : Type 0 where
  to_observe :
      (name : String) (connected : Bool) (xuid source : String) (at : Option ℕ) (clock : ℕ) → Call
  to_reconcile : (players : List String) (xuids : Dict String) (source : String) (now : ℕ) → Call
  to_close : (reason source : String) (now : ℕ) → Call
  to_die : (name cause raw source event_key : String) (now : ℕ) → Call
  to_permit : (name permission source : String) (now : ℕ) → Call
  to_prefer : (name : String) (mode : Option String) → Call

module _ (l : Locale) where
  -- The first loop of `reconcile_online_players`, with the identities that are online.
  unfoldable pub observe_all :
      List String → Dict String → String → ℕ → Tables → List String → Tables × List String
  unfolding lookup observe_player
  observe_all [] xuids source now t seen = (t, seen)
  observe_all (name ∷ names) xuids source now t seen =
      let (t', s) =
        observe_player l name true (xuid_of (lookup name xuids)) source (some now) now t in
      observe_all names xuids source now t' (s.identity ∷ seen)

  -- The second loop
  unfoldable pub observe_missing :
      List (String × Profile) → List String → String → ℕ → Tables → Tables
  unfolding observe_player
  observe_missing [] seen source now t = t
  observe_missing ((identity, p) ∷ rows) seen source now t = observe_missing rows seen source now (
      if any (str_eq identity) seen
      then t
      else (observe_player l p.current_name false "" source (some now) now t).0)

  unfoldable pub reconcile_online_players : List String → Dict String → String → ℕ → Tables → Tables
  unfolding observe_all observe_missing
  reconcile_online_players players xuids source now t =
      let (t', seen) = observe_all players xuids source now t [] in
      observe_missing (online_rows t'.profiles) seen source now t'

  -- One round of `close_online_sessions`
  unfoldable pub close_online : String → String → ℕ → String × Profile → Tables → Tables
  unfolding modify update_last allocate_daily_play note
  close_online reason source now (identity, p) t =
      let started = time_or p.connected_at now in
      let duration = now - started in
      note identity "player.disconnected" now source
        (("name", text p.current_name) ∷ ("reason", text reason) ∷ ("inferred", bool true) ∷ [])
        (record t {
          sessions =
              update_last (is_open identity)
                (λ s. record (ended now duration reason s) { inferred = true }) t.sessions;
          daily = allocate_daily_play l identity started now t.daily;
          profiles =
              modify identity
                (λ q. record q {
                  online = false;
                  connected_at = none;
                  last_seen_at = now;
                  total_play_seconds = q.total_play_seconds + duration;
                })
                t.profiles;
        })

  unfoldable pub close_all : String → String → ℕ → List (String × Profile) → Tables → Tables
  unfolding close_online
  close_all reason source now [] t = t
  close_all reason source now (row ∷ rows) t =
      close_all reason source now rows (close_online reason source now row t)

  unfoldable pub close_online_sessions : String → String → ℕ → Tables → Tables × List String
  unfolding close_all
  close_online_sessions reason source now t =
      let rows = online_rows t.profiles in
      (close_all reason source now rows t, map (λ r. r.1.current_name) rows)

  -- `record_player_death`
  unfoldable pub record_player_death :
      String → String → String → String → String → ℕ → Tables → Tables × Bool
  unfolding player_identity ensure_profile modify record_player_history add_daily
  record_player_death name cause raw source event_key now t =
      let (t1, identity) = player_identity l name "" t in
      let t2 = record t1 {
        profiles = ensure_profile identity (new_profile name now) t1.profiles;
      } in
      let (history, inserted) =
        record_player_history
          (event identity "player.death" now source
            (("name", text name)
              ∷ ("cause", text cause)
              ∷ ("raw", text raw)
              ∷ ("derived", bool true)
              ∷ [])
            (some event_key))
          t2.history in
      (
        if inserted
            then record t2 {
              history = history;
              profiles =
                  modify identity
                    (λ p. record p {
                      deaths_count = p.deaths_count + 1;
                      last_death_at = some now;
                      last_seen_at = now;
                    })
                    t2.profiles;
              daily = add_daily l identity now died t2.daily;
            }
            else t2,
        inserted,
      )

  -- `set_player_permission`
  unfoldable pub set_player_permission : String → String → String → ℕ → Tables → Tables
  unfolding player_identity lookup insert modify note
  set_player_permission name permission source now t =
      let (t1, identity) = player_identity l name "" t in
      let t2 = record t1 { profiles = write_permission identity name permission now t1.profiles } in
      if has_permission permission (lookup identity t1.profiles)
      then t2
      else note identity "player.permission.changed" now source
          (("name", text name) ∷ ("permission", text permission) ∷ []) t2

  -- `set_preferred_game_mode` and `get_preferred_game_mode`
  unfoldable pub set_preferred_game_mode : String → Option String → Tables → Tables
  unfolding player_identity modify
  set_preferred_game_mode name mode t =
      let (t1, identity) = player_identity l name "" t in
      record t1 {
        profiles = modify identity (λ p. record p { preferred_game_mode = mode }) t1.profiles;
      }

  unfoldable pub get_preferred_game_mode : String → Tables → Option String
  unfolding player_identity lookup
  get_preferred_game_mode name t =
      let (t1, identity) = player_identity l name "" t in mode_of (lookup identity t1.profiles)

  unfoldable pub call : Call → Tables → Tables
  unfolding observe_player reconcile_online_players close_online_sessions record_player_death
      set_player_permission set_preferred_game_mode
  call (to_observe name connected xuid source occurred clock) t =
      (observe_player l name connected xuid source occurred clock t).0
  call (to_reconcile players xuids source now) t =
      reconcile_online_players players xuids source now t
  call (to_close reason source now) t = (close_online_sessions reason source now t).0
  call (to_die name cause raw source event_key now) t =
      (record_player_death name cause raw source event_key now t).0
  call (to_permit name permission source now) t = set_player_permission name permission source now t
  call (to_prefer name mode) t = set_preferred_game_mode name mode t

  unfoldable pub calls : List Call → Tables → Tables
  unfolding call
  calls [] t = t
  calls (c ∷ cs) t = calls cs (call c t)

-- ===== src/Agent/Settings.antt =====
-- runtime/operations.py: the tables of the settings, their validation and their rendering.
-- Python's `str` of a value is the parameter `str`, since only its text matters here.
pub mod Safety
use Prim.Native.Char.{code}
use craftcontrol.Base.{
  Bool, true, false, Option, none, some, List, [], ◌∷◌, String, ◌==◌, str_eq, if◌then◌else◌, any,
  not, ◌&&◌, ◌||◌, concat,
}
use craftcontrol.Base.Dict.{Dict, lookup}
use craftcontrol.Base.Int.{pos, leb_ℤ}
use craftcontrol.Base.Value.{Value, bool, int, float}

-- `field in names`
abbrev pub member : String → List String → Bool
member s = any (λ t. str_eq t s)

-- `_ENUM_ALLOWED`
unfoldable pub enum_allowed : Dict (List String)
enum_allowed =
    ("difficulty", "peaceful" ∷ "easy" ∷ "normal" ∷ "hard" ∷ [])
    ∷ ("gamemode", "survival" ∷ "creative" ∷ "adventure" ∷ [])
    ∷ ("default_player_permission_level", "visitor" ∷ "member" ∷ "operator" ∷ [])
    ∷ ("chat_restriction", "None" ∷ "Dropped" ∷ "Disabled" ∷ [])
    ∷ ("level_type", "DEFAULT" ∷ "FLAT" ∷ "LEGACY" ∷ [])
    ∷ (
      "server_authoritative_movement",
      "client-auth" ∷ "client-auth-with-rewind" ∷ "server-auth" ∷ "server-auth-with-rewind" ∷ [],
    )
    ∷ []

-- `_INT_FIELDS`
unfoldable pub int_fields : List String
int_fields =
    "max_players" ∷ "server_port" ∷ "server_portv6" ∷ "view_distance" ∷ "tick_distance"
    ∷ "player_idle_timeout" ∷ "max_threads" ∷ "compression_threshold"
    ∷ "player_movement_score_threshold" ∷ "player_movement_duration_threshold_in_ms" ∷ []

-- `_PORT_FIELDS`
unfoldable pub port_fields : List String
port_fields = "server_port" ∷ "server_portv6" ∷ []

-- `_BOOL_FIELDS`
unfoldable pub bool_fields : List String
bool_fields =
    "online_mode" ∷ "white_list" ∷ "allow_list" ∷ "allow_cheats" ∷ "force_gamemode"
    ∷ "enable_lan_visibility" ∷ "texturepack_required" ∷ "content_log_file_enabled"
    ∷ "correct_player_movement" ∷ "server_authoritative_block_breaking"
    ∷ "disable_player_interaction" ∷ "client_side_chunk_generation_enabled"
    ∷ "block_network_ids_are_hashes" ∷ "disable_persona" ∷ "disable_custom_skins" ∷ []

-- `_FLOAT_FIELDS`
unfoldable pub float_fields : List String
float_fields =
    "player_movement_action_direction_threshold" ∷ "player_movement_distance_threshold"
    ∷ "server_build_radius_ratio" ∷ []

-- `_FIELD_MAP`, whose keys are the set `_INTENDED_STATE_FIELDS`
unfoldable pub field_map : Dict String
field_map =
    ("server_name", "server-name")
    ∷ ("difficulty", "difficulty")
    ∷ ("max_players", "max-players")
    ∷ ("gamemode", "gamemode")
    ∷ ("server_port", "server-port")
    ∷ ("level_name", "level-name")
    ∷ ("level_seed", "level-seed")
    ∷ ("online_mode", "online-mode")
    ∷ ("white_list", "white-list")
    ∷ ("allow_list", "allow-list")
    ∷ ("view_distance", "view-distance")
    ∷ ("tick_distance", "tick-distance")
    ∷ ("player_idle_timeout", "player-idle-timeout")
    ∷ ("max_threads", "max-threads")
    ∷ ("level_type", "level-type")
    ∷ ("allow_cheats", "allow-cheats")
    ∷ ("force_gamemode", "force-gamemode")
    ∷ ("server_portv6", "server-portv6")
    ∷ ("enable_lan_visibility", "enable-lan-visibility")
    ∷ ("default_player_permission_level", "default-player-permission-level")
    ∷ ("texturepack_required", "texturepack-required")
    ∷ ("content_log_file_enabled", "content-log-file-enabled")
    ∷ ("compression_threshold", "compression-threshold")
    ∷ ("server_authoritative_movement", "server-authoritative-movement")
    ∷ ("player_movement_score_threshold", "player-movement-score-threshold")
    ∷ ("player_movement_action_direction_threshold", "player-movement-action-direction-threshold")
    ∷ ("player_movement_distance_threshold", "player-movement-distance-threshold")
    ∷ ("player_movement_duration_threshold_in_ms", "player-movement-duration-threshold-in-ms")
    ∷ ("correct_player_movement", "correct-player-movement")
    ∷ ("server_authoritative_block_breaking", "server-authoritative-block-breaking")
    ∷ ("chat_restriction", "chat-restriction")
    ∷ ("disable_player_interaction", "disable-player-interaction")
    ∷ ("client_side_chunk_generation_enabled", "client-side-chunk-generation-enabled")
    ∷ ("block_network_ids_are_hashes", "block-network-ids-are-hashes")
    ∷ ("disable_persona", "disable-persona")
    ∷ ("disable_custom_skins", "disable-custom-skins")
    ∷ ("server_build_radius_ratio", "server-build-radius-ratio")
    ∷ []

-- `"\n" in s or "\r" in s`
unfoldable pub has_newline : String → Bool
has_newline String.[] = false
has_newline (String.◌∷◌ c s) = (code c == 10 || code c == 13) || has_newline s

abbrev pub is_bool : Value → Bool
is_bool (bool _) = true
is_bool _ = false

-- `isinstance(value, int)`, which holds of a `bool` too
abbrev pub is_int : Value → Bool
is_int (int _) = true
is_int (bool _) = true
is_int _ = false

abbrev pub is_float : Value → Bool
is_float (float _) = true
is_float _ = false

-- `1 <= value <= 65535`, at an integer that is no `bool`
abbrev pub in_port_range : Value → Bool
in_port_range (int n) = leb_ℤ (pos 1) n && leb_ℤ n (pos 65535)
in_port_range _ = false

abbrev pub quoted : String → String → String
quoted field message = concat "'" (concat field message)

-- `listing` is `", ".join(sorted(options))`.
module _ (str : Value → String) (listing : List String → String) where
  -- One round of the loop of `_validate_intended_state_values`: the message for a bad value.
  unfoldable pub value_error : String → Value → Option String
  unfolding has_newline
  value_error field value = elim (lookup field enum_allowed) [
    | some options ↦
        if member (str value) options
        then none
        else some (quoted field (concat "' must be one of: " (listing options)))
    | none ↦
        if member field int_fields
        then (if not (is_int value) || is_bool value
            then some (quoted field "' must be an integer")
            else if member field port_fields && not (in_port_range value)
            then some (quoted field "' must be between 1 and 65535")
            else none)
        else if member field bool_fields
        then (if is_bool value then none else some (quoted field "' must be a boolean"))
        else if member field float_fields
        then (if not (is_int value || is_float value) || is_bool value
            then some (quoted field "' must be a number")
            else none)
        else if has_newline (str value)
        then some (quoted field "' must not contain newline characters")
        else none
  ]

  -- `_validate_intended_state_values`: the first message, or none
  unfoldable pub validate : Dict Value → Option String
  unfolding value_error
  validate [] = none
  validate ((field, value) ∷ rest) =
      let later = validate rest in
      elim (value_error field value) [ some message ↦ some message | none ↦ later ]

module _ (str : Value → String) where
  -- `_render_field_value`
  unfoldable pub render : Value → String
  render (bool b) = if b then "true" else "false"
  render value = str value

  -- `_build_updates`
  unfoldable pub build_updates : Dict Value → Dict String
  unfolding render
  build_updates [] = []
  build_updates ((field, value) ∷ rest) =
      let later = build_updates rest in
      elim (lookup field field_map) [ some key ↦ (key, render value) ∷ later | none ↦ later ]

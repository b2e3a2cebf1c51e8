-- ===== src/Schema/Tables.antt =====
-- core/schema.py: the fields of the settings and of the game rules, with the names that the settings
-- have in server.properties.
use craftcontrol.Base.{ℕ, none, some, List, [], ◌∷◌, String}
use craftcontrol.Base.Dict.{Dict}
use craftcontrol.Schema.{Field, Kind}

abbrev pub flag : Field
flag = record { kind = Kind.boolean; options = []; minimum = none; maximum = none }

abbrev pub line : Field
line = record { kind = Kind.free; options = []; minimum = none; maximum = none }

abbrev pub choice : List String → Field
choice options = record { kind = Kind.select; options = options; minimum = none; maximum = none }

abbrev pub range : ℕ → ℕ → Field
range low high = record {
  kind = Kind.number;
  options = [];
  minimum = some low;
  maximum = some high;
}

-- `SETTINGS`
unfoldable pub settings : Dict Field
settings =
    ("SERVER_NAME", line)
    ∷ ("GAMEMODE", choice ("survival" ∷ "creative" ∷ "adventure" ∷ []))
    ∷ ("DIFFICULTY", choice ("peaceful" ∷ "easy" ∷ "normal" ∷ "hard" ∷ []))
    ∷ ("ALLOW_CHEATS", flag)
    ∷ ("MAX_PLAYERS", range 1 100)
    ∷ ("VIEW_DISTANCE", range 5 96)
    ∷ ("TICK_DISTANCE", range 4 12)
    ∷ ("LEVEL_NAME", line)
    ∷ ("LEVEL_SEED", line)
    ∷ ("LEVEL_TYPE", choice ("DEFAULT" ∷ "FLAT" ∷ "LEGACY" ∷ []))
    ∷ ("FORCE_GAMEMODE", flag)
    ∷ ("PLAYER_IDLE_TIMEOUT", range 0 1440)
    ∷ ("DEFAULT_PLAYER_PERMISSION_LEVEL", choice ("visitor" ∷ "member" ∷ "operator" ∷ []))
    ∷ ("ALLOW_LIST", flag)
    ∷ ("ONLINE_MODE", flag)
    ∷ ("TEXTUREPACK_REQUIRED", flag)
    ∷ ("ENABLE_LAN_VISIBILITY", flag)
    ∷ ("SERVER_PORT", range 1 65535)
    ∷ ("SERVER_PORT_V6", range 1 65535)
    ∷ ("MAX_THREADS", range 0 64)
    ∷ ("COMPRESSION_THRESHOLD", range 0 65535)
    ∷ []

-- `GAMERULES`
unfoldable pub gamerules : Dict Field
gamerules =
    ("showcoordinates", flag)
    ∷ ("showdaysplayed", flag)
    ∷ ("showdeathmessages", flag)
    ∷ ("showrecipemessages", flag)
    ∷ ("pvp", flag)
    ∷ ("keepinventory", flag)
    ∷ ("naturalregeneration", flag)
    ∷ ("doimmediaterespawn", flag)
    ∷ ("spawnradius", range 0 128)
    ∷ ("dodaylightcycle", flag)
    ∷ ("doweathercycle", flag)
    ∷ ("dofiretick", flag)
    ∷ ("tntexplodes", flag)
    ∷ ("randomtickspeed", range 0 4096)
    ∷ ("domobspawning", flag)
    ∷ ("mobgriefing", flag)
    ∷ ("doinsomnia", flag)
    ∷ ("domobloot", flag)
    ∷ ("dotiledrops", flag)
    ∷ ("doentitydrops", flag)
    ∷ ("tntexplosiondropdecay", flag)
    ∷ ("commandblockoutput", flag)
    ∷ ("sendcommandfeedback", flag)
    ∷ ("commandblocksenabled", flag)
    ∷ ("maxcommandchainlength", range 0 65536)
    ∷ ("functioncommandlimit", range 0 10000)
    ∷ []

-- `PROPERTY_NAMES`
unfoldable pub property_names : Dict String
property_names =
    ("SERVER_NAME", "server-name")
    ∷ ("GAMEMODE", "gamemode")
    ∷ ("FORCE_GAMEMODE", "force-gamemode")
    ∷ ("DIFFICULTY", "difficulty")
    ∷ ("ALLOW_CHEATS", "allow-cheats")
    ∷ ("MAX_PLAYERS", "max-players")
    ∷ ("VIEW_DISTANCE", "view-distance")
    ∷ ("TICK_DISTANCE", "tick-distance")
    ∷ ("LEVEL_NAME", "level-name")
    ∷ ("LEVEL_SEED", "level-seed")
    ∷ ("LEVEL_TYPE", "level-type")
    ∷ ("PLAYER_IDLE_TIMEOUT", "player-idle-timeout")
    ∷ ("DEFAULT_PLAYER_PERMISSION_LEVEL", "default-player-permission-level")
    ∷ ("ALLOW_LIST", "allow-list")
    ∷ ("ONLINE_MODE", "online-mode")
    ∷ ("TEXTUREPACK_REQUIRED", "texturepack-required")
    ∷ ("ENABLE_LAN_VISIBILITY", "enable-lan-visibility")
    ∷ ("SERVER_PORT", "server-port")
    ∷ ("SERVER_PORT_V6", "server-portv6")
    ∷ ("MAX_THREADS", "max-threads")
    ∷ ("COMPRESSION_THRESHOLD", "compression-threshold")
    ∷ []

-- ===== src/Config.antt =====
-- src/Config.h and src/Config.cpp: the settings. The search for the file, which gives a `ConfigFile`,
-- stands in Search; the JSON library is the parameter `JsonLib`, of which no law is used but where a
-- theorem says so.
pub mod Types
pub mod Json
pub mod Valid
pub mod Search
use palworld_pal_crosschat.Base.{
  ℕ, ◌-◌, ◌/◌, ◌<◌, Bool, true, false, not, ◌&&◌, ◌||◌, Option, none, some, List, [], ◌∷◌, map,
  ◌==◌, if◌then◌else◌, is_empty, all, Bytes, codes, to_lower, str_eq, ℤ, pos, ltb_ℤ, leb_ℤ,
  at_least,
}
use palworld_pal_crosschat.ChatApi.{chat_category_global, chat_category_discord}
use Types.{FilterPatternConfig, Config, default_config}
use Json.{JsonLib, ConfigFile, no_root, missing, unopened, unparsed, parsed}

unfoldable pub apply_inject_category : Config → Bytes → Config
apply_inject_category cfg value =
    if str_eq (map to_lower value) (codes "discord")
    then record cfg {
      inject_category = chat_category_discord;
      inject_category_name = codes "discord";
    }
    else record cfg {
      inject_category = chat_category_global;
      inject_category_name = codes "global";
    }

-- `if (!pattern_cfg.pattern.empty()) push_back`
unfoldable pub keep_pattern :
    FilterPatternConfig → List FilterPatternConfig → List FilterPatternConfig
keep_pattern p rest = if not (is_empty p.pattern) then p ∷ rest else rest

abbrev pub text_of : Option Bytes → Bytes
text_of none = []
text_of (some s) = s

-- The last lines of `LoadConfig`: numbers are forced into range.
unfoldable pub clamp : Config → Config
clamp cfg = record cfg {
  poll_interval_ms = at_least (pos 100) cfg.poll_interval_ms;
  max_batch = at_least (pos 1) cfg.max_batch;
  max_broadcasts_per_tick = at_least (pos 1) cfg.max_broadcasts_per_tick;
  reconnect_backoff_max_sec = at_least (pos 1) cfg.reconnect_backoff_max_sec;
  mysql_port =
      if leb_ℤ cfg.mysql_port (pos 0) || ltb_ℤ (pos 65535) cfg.mysql_port
      then pos 3306
      else cfg.mysql_port;
  enabled = true;
}

abbrev pub is_origin : Bytes → Bool
is_origin s = str_eq s (codes "pal-na") || str_eq s (codes "pal-eu")

abbrev pub has_mysql : Config → Bool
has_mysql cfg =
    not (is_empty cfg.mysql_host || is_empty cfg.mysql_user || is_empty cfg.mysql_database)

unfoldable pub validate : Config → Config
unfolding clamp
validate cfg =
    if not (is_origin cfg.server_origin)
    then default_config
    else if not (has_mysql cfg)
    then default_config
    else clamp cfg

-- Chains of calls that may throw.
infixl 5 ◌>>=◌
abbrev pub ◌>>=◌ {ℓ κ} : {A : Type ℓ} {B : Type κ} → Option A → (A → Option B) → Option B
none >>= f = none
some a >>= f = f a

module _ (lib : JsonLib) where
  open lib use {
    Json, is_object, contains_key, at, is_null, get_string, get_int, get_bool, is_array, elements,
    is_string, value, empty_object,
  }

  -- `GetOr<T>`: a missing key, a null and a value of another type all give the fallback.
  unfoldable pub get_or_else {ℓ} : {T : Type ℓ} → (Json → Option T) → Json → Bytes → T → T
  get_or_else get obj key fallback =
      if not (is_object obj) || not (contains_key obj key) || is_null (at obj key)
      then fallback
      else elim (get (at obj key)) [ none ↦ fallback | some v ↦ v ]

  unfoldable pub read_general : Json → Config → Config
  unfolding get_or_else
  read_general general cfg = record cfg {
    server_origin = get_or_else get_string general (codes "ServerOrigin") [];
    poll_interval_ms = get_or_else get_int general (codes "PollIntervalMs") cfg.poll_interval_ms;
    max_batch = get_or_else get_int general (codes "MaxBatch") cfg.max_batch;
    max_broadcasts_per_tick =
        get_or_else get_int general (codes "MaxBroadcastsPerTick") cfg.max_broadcasts_per_tick;
    debug_verbose = get_or_else get_bool general (codes "DebugVerbose") cfg.debug_verbose;
  }

  unfoldable pub read_mysql : Json → Config → Config
  unfolding get_or_else
  read_mysql mysql cfg = record cfg {
    mysql_host = get_or_else get_string mysql (codes "Host") [];
    mysql_port = get_or_else get_int mysql (codes "Port") cfg.mysql_port;
    mysql_user = get_or_else get_string mysql (codes "User") [];
    mysql_password = get_or_else get_string mysql (codes "Password") [];
    mysql_database = get_or_else get_string mysql (codes "Database") [];
    reconnect_backoff_max_sec =
        get_or_else get_int mysql (codes "ReconnectBackoffMaxSec") cfg.reconnect_backoff_max_sec;
  }

  unfoldable pub read_format : Json → Config → Config
  unfolding get_or_else apply_inject_category
  read_format format cfg =
      let named = record cfg {
        prefix_na = get_or_else get_string format (codes "PrefixNA") cfg.prefix_na;
        prefix_eu = get_or_else get_string format (codes "PrefixEU") cfg.prefix_eu;
        prefix_discord = get_or_else get_string format (codes "PrefixDiscord") cfg.prefix_discord;
        chat_format = get_or_else get_string format (codes "ChatFormat") cfg.chat_format;
      } in
      let placed =
        apply_inject_category named
          (get_or_else get_string format (codes "InjectCategory") (codes "global")) in
      record placed {
        show_local_server_tag =
            get_or_else get_bool format (codes "ShowLocalServerTag") cfg.show_local_server_tag;
        preserve_sender_uid =
            get_or_else get_bool format (codes "PreserveSenderUId") cfg.preserve_sender_uid;
        enable_audience_scan =
            get_or_else get_bool format (codes "EnableAudienceScan") cfg.enable_audience_scan;
      }

  -- One entry of FilteredPatterns, with its minutes raised to 0.
  unfoldable pub pattern_entry : Json → FilterPatternConfig
  unfolding get_or_else
  pattern_entry entry = record {
    pattern = get_or_else get_string entry (codes "Pattern") [];
    mute_minutes = at_least (pos 0) (get_or_else get_int entry (codes "MuteMinutes") (pos 5));
    mute_message = get_or_else get_string entry (codes "MuteMessage") [];
  }

  unfoldable pub read_patterns : List Json → List FilterPatternConfig
  unfolding pattern_entry keep_pattern
  read_patterns [] = []
  read_patterns (entry ∷ entries) =
      let rest = read_patterns entries in
      if not (is_object entry) then rest else keep_pattern (pattern_entry entry) rest

  -- A word of the legacy BlockedWords.
  unfoldable pub read_words : ℤ → List Json → List FilterPatternConfig
  unfolding keep_pattern
  read_words minutes [] = []
  read_words minutes (entry ∷ entries) =
      let rest = read_words minutes entries in
      if not (is_string entry)
      then rest
      else keep_pattern
          (record {
            pattern = text_of (get_string entry);
            mute_minutes = at_least (pos 0) minutes;
            mute_message = codes "blocked word or phrase (chat filter)";
          })
          rest

  abbrev pub has_array : Json → Bytes → Bool
  has_array obj key = contains_key obj key && is_array (at obj key)

  unfoldable pub read_filter_patterns : Json → List FilterPatternConfig
  unfolding read_patterns read_words get_or_else
  read_filter_patterns chat_filter =
      if has_array chat_filter (codes "FilteredPatterns")
      then read_patterns (elements (at chat_filter (codes "FilteredPatterns")))
      else if has_array chat_filter (codes "BlockedWords")
      then read_words (get_or_else get_int chat_filter (codes "AutoMuteMinutes") (pos 5))
          (elements (at chat_filter (codes "BlockedWords")))
      else []

  unfoldable pub read_filter : Json → Config → Config
  unfolding get_or_else read_filter_patterns
  read_filter chat_filter cfg = record cfg {
    mute_log_webhook =
        get_or_else get_string chat_filter (codes "LogWebhookUrl")
          (get_or_else get_string chat_filter (codes "MuteLogWebhook") []);
    initial_mute_notification =
        get_or_else get_string chat_filter (codes "InitialMuteNotification")
          cfg.initial_mute_notification;
    active_mute_notification =
        get_or_else get_string chat_filter (codes "ActiveMuteNotification")
          cfg.active_mute_notification;
    filter_patterns = read_filter_patterns chat_filter;
  }

  -- `root_json.value(key, json::object())`, which throws on a root that is no object; `none` is an
  -- exception that leaves `LoadConfig`.
  unfoldable pub read_root : Json → Option Config
  unfolding read_general read_mysql read_format read_filter validate
  read_root root = do
    general ← value root (codes "General") empty_object
    mysql ← value root (codes "MySQL") empty_object
    format ← value root (codes "Format") empty_object
    chat_filter ←
        value root
          (if contains_key root (codes "ChatFilter")
            then codes "ChatFilter"
            else codes "WordBlacklist")
          empty_object
    some (
        validate (
          read_filter chat_filter
            (read_format format (read_mysql mysql (read_general general default_config)))))

  unfoldable pub load_config : ConfigFile lib → Option Config
  unfolding read_root
  load_config (parsed root) = read_root root
  load_config no_root = some default_config
  load_config missing = some default_config
  load_config unopened = some default_config
  load_config unparsed = some default_config

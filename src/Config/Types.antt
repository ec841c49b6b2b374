-- ===== src/Config/Types.antt =====
-- The records of src/Config.h, with their default values.
use palworld_pal_crosschat.Base.{ℕ, Bool, false, List, [], Bytes, codes, ℤ, pos}

pub record FilterPatternConfig : Type 0 where
  pub pattern : Bytes
  pub mute_minutes : ℤ
  pub mute_message : Bytes

pub record Config : Type 0 where
  pub enabled : Bool
  pub server_origin : Bytes
  pub poll_interval_ms : ℤ
  pub max_batch : ℤ
  pub max_broadcasts_per_tick : ℤ
  pub debug_verbose : Bool
  pub mysql_host : Bytes
  pub mysql_port : ℤ
  pub mysql_user : Bytes
  pub mysql_password : Bytes
  pub mysql_database : Bytes
  pub reconnect_backoff_max_sec : ℤ
  pub prefix_na : Bytes
  pub prefix_eu : Bytes
  pub prefix_discord : Bytes
  pub chat_format : Bytes
  pub inject_category : ℕ
  pub inject_category_name : Bytes
  pub show_local_server_tag : Bool
  pub preserve_sender_uid : Bool
  pub enable_audience_scan : Bool
  pub mute_log_webhook : Bytes
  pub initial_mute_notification : Bytes
  pub active_mute_notification : Bytes
  pub filter_patterns : List FilterPatternConfig

-- `Config{}`
abbrev pub default_config : Config
default_config = record {
  enabled = false;
  server_origin = [];
  poll_interval_ms = pos 750;
  max_batch = pos 50;
  max_broadcasts_per_tick = pos 5;
  debug_verbose = false;
  mysql_host = [];
  mysql_port = pos 3306;
  mysql_user = [];
  mysql_password = [];
  mysql_database = [];
  reconnect_backoff_max_sec = pos 30;
  prefix_na = codes "NA";
  prefix_eu = codes "EU";
  prefix_discord = codes "Discord";
  chat_format = codes "[{prefix}] [{guild}] {player}: {message}";
  inject_category = 1;
  inject_category_name = codes "global";
  show_local_server_tag = false;
  preserve_sender_uid = false;
  enable_audience_scan = false;
  mute_log_webhook = [];
  initial_mute_notification = codes "You have been muted for {mutetime}!";
  active_mute_notification = codes "You are muted! Time remaining: {remainingtime}";
  filter_patterns = [];
}

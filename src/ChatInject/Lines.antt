-- ===== src/ChatInject/Lines.antt =====
-- The lines of chat: BroadcastDual, which sends one line to both groups of players, and its callers.
use palworld_pal_crosschat.Base.{
  ℕ, Bool, true, false, not, ◌&&◌, ◌||◌, Option, none, some, List, [], if◌then◌else◌, is_some,
  is_empty, Bytes, codes, str_eq,
}
use palworld_pal_crosschat.Guid.{Guid, nil_guid, guid_eq, try_parse_guid}
use palworld_pal_crosschat.Sanitize.{sanitize_message}
use palworld_pal_crosschat.ChatFormat.{apply_chat_format, apply_chat_format_attributed}
use palworld_pal_crosschat.Config.Types.{Config}
use palworld_pal_crosschat.Queues.{InboundMessage}
use palworld_pal_crosschat.WordFilter.{RegexLib, WordFilter, active, find_match}
use palworld_pal_crosschat.Audience.Defs.{AudienceTracker, is_online_player_uid, snapshot}
use palworld_pal_crosschat.Audience.Hooks.{try_bootstrap_once}
use palworld_pal_crosschat.ChatInject.Game.{Game, Session}
use palworld_pal_crosschat.ChatInject.Display.{broadcast_display}

abbrev pub prefix_for_origin : Config → Bytes → Bytes
prefix_for_origin config origin =
    if str_eq origin (codes "pal-na")
    then config.prefix_na
    else if str_eq origin (codes "pal-eu")
    then config.prefix_eu
    else if str_eq origin (codes "discord")
    then config.prefix_discord
    else []

abbrev pub local_server_prefix : Config → Bytes
local_server_prefix config = prefix_for_origin config config.server_origin

-- What both paths show: sender and text for the Xbox players, and for the others.
pub record Line : Type 0 where
  pub xbox_sender : Bytes
  pub xbox_message : Bytes
  pub formatted_sender : Bytes
  pub formatted_message : Bytes
  pub category : ℕ
  pub sender_player_uid : Option Guid

-- The sender's id, where it is a player of this server.
abbrev pub xbox_uid_of : Option AudienceTracker → Option Guid → Option Guid
xbox_uid_of (some t) (some uid) = if is_online_player_uid t uid then some uid else none
xbox_uid_of _ _ = none

abbrev pub or_text : Bytes → Bytes → Bytes
or_text text fallback = if is_empty text then fallback else text

abbrev pub sender_or_unknown : Bytes → Bytes
sender_or_unknown name = or_text name (codes "Unknown")

-- Whether the filter stops an inbound text.
unfoldable pub inbound_stopped : (lib : RegexLib) → Option (WordFilter lib) → Bytes → Bool
unfolding active find_match
inbound_stopped lib none text = false
inbound_stopped lib (some f) text = active lib f && is_some (find_match lib f text)

module _ (game : Game) where
  -- Both lists of players.
  unfoldable pub groups : Session game → (List Guid × List Guid) × Session game
  unfolding try_bootstrap_once snapshot
  groups s = elim s.audience [
    | none ↦ (([], []), s)
    | some t ↦
        let (lists, t') =
          snapshot (game.weak_states s.world) (try_bootstrap_once t (game.find_players s.world)) in
        (lists, record s { audience = some t' })
  ]

  unfoldable pub to_others : Line → List Guid → Session game → Bool × Session game
  unfolding broadcast_display
  to_others line others s =
      broadcast_display game line.formatted_sender line.formatted_message line.category others none
        s

  unfoldable pub to_xbox : Line → List Guid → Option Guid → Session game → Bool × Session game
  unfolding broadcast_display
  to_xbox line xbox none s = (true, s)
  to_xbox line xbox (some uid) s =
      broadcast_display game line.xbox_sender line.xbox_message line.category xbox (some uid) s

  -- With both lists, and the id for the Xbox players.
  unfoldable pub send_both :
      Line → List Guid → List Guid → Option Guid → Session game → Bool × Session game
  unfolding to_others to_xbox
  send_both line xbox others uid s =
      if is_empty xbox && is_empty others
      then (true, s)
      else if is_empty xbox
      then to_others line others s
      else (let (shown, s1) : Bool × Session game =
            if not (is_empty others) then to_others line others s else (true, s) in
          let (attributed, s2) = to_xbox line xbox uid s1 in (attributed && shown, s2))

  unfoldable pub broadcast_dual : Line → Session game → Bool × Session game
  unfolding groups send_both is_online_player_uid
  broadcast_dual line s =
      let ((xbox, others), s1) = groups s in
      send_both line xbox others (xbox_uid_of s1.audience line.sender_player_uid) s1

  unfoldable pub broadcast_local_tagged :
      Config → Bytes → Bytes → Bytes → ℕ → Guid → Session game → Bool × Session game
  unfolding broadcast_dual
  broadcast_local_tagged config sender_name guild_name message category sender_player_uid s =
      let prefix = local_server_prefix config in
      let clean_sender = sender_or_unknown (sanitize_message sender_name 64) in
      let clean_message = sanitize_message message 512 in
      let clean_guild = sanitize_message guild_name 64 in
      let (display_sender, display_message) =
        apply_chat_format config.chat_format prefix clean_guild clean_sender clean_message in
      let (xbox_sender, xbox_message) =
        apply_chat_format_attributed config.chat_format prefix clean_guild clean_sender
          clean_message in
      if is_empty clean_message || is_empty display_message
      then (false, s)
      else broadcast_dual
          (record {
            xbox_sender = xbox_sender;
            xbox_message = or_text xbox_message clean_message;
            formatted_sender = display_sender;
            formatted_message = display_message;
            category = category;
            sender_player_uid =
                if guid_eq sender_player_uid nil_guid then none else some sender_player_uid;
          })
          s

  unfoldable pub broadcast_one :
      (lib : RegexLib)
      → Config
      → Option (WordFilter lib)
      → InboundMessage
      → Session game
      → Bool × Session game
  unfolding inbound_stopped broadcast_dual try_parse_guid
  broadcast_one lib config filter msg s =
      let clean_message = sanitize_message msg.message 512 in
      let clean_sender = sender_or_unknown (sanitize_message msg.sender_name 64) in
      let prefix = prefix_for_origin config msg.origin in
      let clean_guild = sanitize_message msg.guild_name 64 in
      let (display_sender, display_message) =
        apply_chat_format config.chat_format prefix clean_guild clean_sender clean_message in
      let (xbox_sender, xbox_message) =
        apply_chat_format_attributed config.chat_format prefix clean_guild clean_sender
          clean_message in
      if is_empty clean_message || inbound_stopped lib filter clean_message
      then (true, s)
      else broadcast_dual
          (record {
            xbox_sender = xbox_sender;
            xbox_message = or_text xbox_message clean_message;
            formatted_sender = display_sender;
            formatted_message = or_text display_message clean_message;
            category = config.inject_category;
            sender_player_uid = try_parse_guid msg.sender_id;
          })
          s

-- ===== src/ChatCapture/Stages.antt =====
-- What `HandleHook` does for a !setdiscord command, for a muted sender and for a filter hit.
use palworld_pal_crosschat.Base.{
  ℕ, ◌*◌, true, false, Option, none, some, [], ◌++◌, if◌then◌else◌, is_empty, Bytes, codes, pos,
  pos_part, ltb_ℤ,
}
use palworld_pal_crosschat.Guid.{Guid, nil_guid, guid_eq}
use palworld_pal_crosschat.Engine.{
  Controller, PlayerState, get_player_state, read_player_uid, read_player_name_property,
  read_account_name,
}
use palworld_pal_crosschat.Config.Types.{Config}
use palworld_pal_crosschat.PlatformId.{normalize_platform_user_id}
use palworld_pal_crosschat.Sanitize.{sanitize_message}
use palworld_pal_crosschat.WordFilter.{
  RegexLib, WordFilter, FilterHit, mute_remaining_seconds, mute, try_consume_mute_notify,
}
use palworld_pal_crosschat.Replace.{replace_placeholder}
use palworld_pal_crosschat.Webhook.{enqueue}
use palworld_pal_crosschat.ChatInject.{
  ChatInject, push_bounded, enqueue_private_chat, enqueue_screen_log,
}
use palworld_pal_crosschat.Audience.Defs.{AudienceTracker, upsert}
use palworld_pal_crosschat.ChatCapture.Text.{
  to_string, format_duration, build_notice_banner, truncate_for_log,
}
use palworld_pal_crosschat.ChatCapture.Hook.{HookContext, try_clear_message}
use palworld_pal_crosschat.ChatCapture.State.{
  ChatCapture, through, handle_of, address_of, unknown, key_of, lookup_cached_player_name,
  max_pending_setdiscord,
}

-- What the hook reads of the sender. `name` is empty when neither the property nor the cache has one.
pub record Sender : Type 0 where
  pub controller : Option ℕ
  pub state : Option PlayerState
  pub uid : Guid
  pub name : Bytes

-- The readings of the steady clock, in the order of the calls that make them.
pub record HookClock : Type 0 where
  pub checked : ℕ
  pub notified : ℕ
  pub measured : ℕ
  pub muted : ℕ

abbrev pub display_name : Sender → Bytes
display_name s = if is_empty s.name then unknown else s.name

abbrev pub sender_id : Sender → Bytes
sender_id s = key_of s.uid

abbrev pub mute_key : Sender → Bytes
mute_key s = if is_empty (sender_id s) then display_name s else sender_id s

abbrev pub upsert_sender : Option AudienceTracker → Sender → Option AudienceTracker
upsert_sender none s = none
upsert_sender (some audience) s = some (
    if guid_eq s.uid nil_guid
    then audience
    else upsert audience s.uid (normalize_platform_user_id (read_account_name s.state))
        (address_of s.state))

abbrev pub banner_queue : Sender → Bytes → ChatInject → ChatInject
banner_queue s banner inject =
    let told =
      if guid_eq s.uid nil_guid then inject else enqueue_private_chat inject s.uid banner in
    enqueue_screen_log told s.controller banner

abbrev pub duration_or : Option ℕ → Bytes
duration_or none = codes "?"
duration_or (some seconds) = format_duration (pos seconds)

-- The text of the webhook's message about a hit.
unfoldable pub filter_log : Config → Sender → FilterHit → Bytes → Bytes
filter_log config s hit message =
    codes "**[PalCrosschat] ChatFilter**\nServer: `"
    ++ (config.server_origin
        ++ (codes "`\nPlayer: `"
            ++ (display_name s
                ++ (codes "`"
                    ++ ((if is_empty (sender_id s)
                          then []
                          else codes " (`" ++ (sender_id s ++ codes "`)"))
                        ++ (codes "\n"
                            ++ ((if ltb_ℤ (pos 0) hit.mute_minutes
                                  then codes "Muted: `"
                                    ++ (to_string (pos_part hit.mute_minutes) ++ codes "m`\n")
                                  else codes "Action: `blocked` (MuteMinutes=0)\n")
                                ++ ((if is_empty hit.mute_message
                                      then []
                                      else codes "MuteMessage: `"
                                        ++ (truncate_for_log hit.mute_message 120 ++ codes "`\n"))
                                    ++ (codes "Pattern: `"
                                        ++ (truncate_for_log hit.pattern_source 120
                                            ++ (codes "`\nMessage: `"
                                                ++ (truncate_for_log message 200
                                                    ++ codes "`"))))))))))))

unfoldable pub hit_line : Bytes → FilterHit → Bytes
hit_line notification hit =
    let mutetime = format_duration (pos (pos_part hit.mute_minutes * 60)) in
    let line = replace_placeholder notification (codes "mutetime") mutetime in
    let named = replace_placeholder line (codes "mutemessage") hit.mute_message in
    replace_placeholder named (codes "remainingtime") mutetime

module _ {lib : RegexLib} where
  unfoldable pub accept_setdiscord :
      ChatCapture lib → HookContext → Bytes → ChatCapture lib × HookContext
  unfolding push_bounded
  accept_setdiscord c context connect_code = (
    record c {
      pending_setdiscord = push_bounded max_pending_setdiscord c.pending_setdiscord (record {
        controller = handle_of context.controller;
        connect_code = sanitize_message connect_code 16;
      });
    },
    (try_clear_message context).1,
  )

  unfoldable pub read_sender : ChatCapture lib → Option Controller → Sender
  read_sender c controller =
      let state = get_player_state controller in
      let uid = read_player_uid state in
      let own = sanitize_message (read_player_name_property state) 64 in
      record {
        controller = handle_of controller;
        state = state;
        uid = uid;
        name = if is_empty own then lookup_cached_player_name c (key_of uid) else own;
      }

  unfoldable pub show_mute_banner : ChatCapture lib → Sender → Bytes → ChatCapture lib
  show_mute_banner c s banner = record c { inject = through (banner_queue s banner) c.inject }

  -- The sender is muted: the banner is shown at most once in 15 seconds.
  unfoldable pub notify_muted :
      ChatCapture lib → WordFilter lib → Sender → HookClock → ChatCapture lib
  unfolding show_mute_banner
  notify_muted c f s clock =
      let (notify, f1) = try_consume_mute_notify lib f (mute_key s) 15 clock.notified in
      if notify
      then (let (seconds, f2) = mute_remaining_seconds lib f1 (mute_key s) clock.measured in
          let line =
            replace_placeholder f2.active_mute_notification (codes "remainingtime")
              (duration_or seconds) in
          show_mute_banner (record c { filter = some f2 }) s (build_notice_banner line [] false))
      else record c { filter = some f1 }

  -- A pattern matched: the mute, the banner and the webhook's message.
  unfoldable pub punish :
      Config → ChatCapture lib → WordFilter lib → Sender → FilterHit → Bytes → ℕ → ChatCapture lib
  unfolding hit_line filter_log show_mute_banner
  punish config c f s hit message now =
      let muted =
        if ltb_ℤ (pos 0) hit.mute_minutes
        then mute lib f (mute_key s) hit.mute_message hit.mute_minutes now
        else f in
      let shown =
        show_mute_banner (record c { filter = some muted }) s
          (build_notice_banner (hit_line muted.initial_mute_notification hit) hit.mute_message
            true) in
      if is_empty muted.mute_log_webhook then shown else record shown {
        webhook =
            through (λ w. enqueue w muted.mute_log_webhook (filter_log config s hit message))
              shown.webhook;
      }

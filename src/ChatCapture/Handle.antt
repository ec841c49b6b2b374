-- ===== src/ChatCapture/Handle.antt =====
-- `HandleHook`, in the order of its tests: an empty message, the !setdiscord command, a mute, a filter
-- hit, a command line, the category, the loop guard, and then the relay.
use palworld_pal_crosschat.Base.{
  ℕ, Bool, false, not, ◌&&◌, ◌||◌, Option, none, some, List, [], ◌∷◌, ◌++◌, ◌==◌, if◌then◌else◌,
  is_some, is_empty, Bytes,
}
use palworld_pal_crosschat.Engine.{read_guild_name}
use palworld_pal_crosschat.Queues.{push}
use palworld_pal_crosschat.Config.Types.{Config}
use palworld_pal_crosschat.ChatApi.{chat_category_none, chat_category_global, is_relayed_category}
use palworld_pal_crosschat.Sanitize.{sanitize_message, starts_with_any_prefix}
use palworld_pal_crosschat.WordFilter.{RegexLib, WordFilter, active, is_muted, find_match}
use palworld_pal_crosschat.ChatInject.{push_bounded, enqueue_local_tagged}
use palworld_pal_crosschat.ChatCapture.Text.{try_parse_set_discord}
use palworld_pal_crosschat.ChatCapture.Hook.{
  HookContext, read_hook_params, try_clear_message, try_set_category,
}
use palworld_pal_crosschat.ChatCapture.State.{ChatCapture, through, max_pending_relays}
use palworld_pal_crosschat.ChatCapture.Stages.{
  Sender, HookClock, sender_id, mute_key, upsert_sender, accept_setdiscord, read_sender,
  notify_muted, punish,
}

abbrev pub is_command_line : Bytes → Bool
is_command_line [] = false
is_command_line (ch ∷ _) = ch == b'/' || ch == b'!'

-- The prefixes of the loop guard: the three of the configuration, and each that is not empty and does
-- not start with a bracket, in brackets.
abbrev pub bracketed : Bytes → List Bytes
bracketed [] = []
bracketed (ch ∷ p) = if ch == b'[' then [] else (b'[' ∷ ch ∷ (p ++ b']' ∷ [])) ∷ []

unfoldable pub loop_prefixes : Config → List Bytes
loop_prefixes config =
    config.prefix_na
    ∷ config.prefix_eu
    ∷ config.prefix_discord
    ∷ (bracketed config.prefix_na
        ++ (bracketed config.prefix_eu ++ bracketed config.prefix_discord))

module _ {lib : RegexLib} where
  -- The relay: through the local tag, and either at once or, without a name, with the next update.
  unfoldable pub relay :
      Config → ChatCapture lib → HookContext → Sender → Bytes → ℕ → ChatCapture lib × HookContext
  unfolding push_bounded
  relay config c context s message category =
      let guild_name = sanitize_message (read_guild_name s.state) 64 in
      let local_tag =
        config.show_local_server_tag && is_some c.inject && category == chat_category_global in
      let context' = if local_tag then (try_clear_message context).1 else context in
      if is_empty s.name
      then (
        record c {
          pending_chat_relays = push_bounded max_pending_relays c.pending_chat_relays (record {
            controller = s.controller;
            message = message;
            guild_name = guild_name;
            sender_id = sender_id s;
            sender_uid = s.uid;
            category = category;
            local_tag = local_tag;
          });
        },
        context',
      )
      else (
        record c {
          inject =
              if local_tag
              then through (λ i. enqueue_local_tagged i s.name guild_name message category s.uid)
                  c.inject
              else c.inject;
          outbound = push c.outbound (record {
            sender_name = s.name;
            sender_id = sender_id s;
            guild_name = guild_name;
            message = message;
          });
        },
        context',
      )

  -- Behind the filter: the command gate, the category and the loop guard.
  unfoldable pub gate :
      Config → ChatCapture lib → HookContext → Sender → Bytes → ℕ → ChatCapture lib × HookContext
  unfolding loop_prefixes relay
  gate config c context s message category =
      if is_command_line message
      then (c, (try_set_category context chat_category_none).1)
      else if not (is_relayed_category category)
      then (c, context)
      else if starts_with_any_prefix message (loop_prefixes config)
      then (c, context)
      else relay config c context s message category

  -- The filter, where there is one and it is active. `IsMuted` may erase a mute that has run out.
  unfoldable pub filter_and_gate :
      Config
      → ChatCapture lib
      → HookContext
      → Sender
      → Bytes
      → ℕ
      → HookClock
      → Option (WordFilter lib)
      → ChatCapture lib × HookContext
  unfolding gate
  filter_and_gate config c context s message category clock none =
      gate config c context s message category
  filter_and_gate config c context s message category clock (some f) =
      if not (active lib f)
      then gate config c context s message category
      else (let (muted, f') = is_muted lib f (mute_key s) clock.checked in
          if muted
          then (notify_muted c f' s clock, (try_clear_message context).1)
          else elim (find_match lib f' message) [
            | none ↦ gate config (record c { filter = some f' }) context s message category
            | some hit ↦
                (punish config c f' s hit message clock.muted, (try_clear_message context).1)
          ])

  unfoldable pub handle_hook :
      (Bytes → Bytes)
      → Config
      → HookClock
      → ChatCapture lib
      → HookContext
      → ChatCapture lib × HookContext
  unfolding filter_and_gate
  handle_hook reencode config clock c context =
      let (raw_message, category) = read_hook_params reencode context in
      let message = sanitize_message raw_message 512 in
      if is_empty message then (c, context) else elim (try_parse_set_discord message) [
        | some connect_code ↦ accept_setdiscord c context connect_code
        | none ↦
            let s = read_sender c context.controller in
            filter_and_gate config (record c { audience = upsert_sender c.audience s }) context s
              message category clock c.filter
      ]

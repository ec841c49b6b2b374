-- ===== src/ChatCapture/Privacy.antt =====
-- Which lines reach the queues that lead to the database and to Discord.
use palworld_pal_crosschat.Base.{
  ℕ, ◌≡◌, refl, inl, inr, Bool, true, false, not, ◌&&◌, Option, none, some, List, arith, ◌==◌,
  if◌then◌else◌, Bool-cases, Option-cases, is_some, is_empty, Bytes,
}
use palworld_pal_crosschat.Engine.{read_guild_name}
use palworld_pal_crosschat.Queues.{push, BoundedQueue, OutboundMessage}
use palworld_pal_crosschat.Config.Types.{Config}
use palworld_pal_crosschat.ChatApi.{chat_category_global}
use palworld_pal_crosschat.Sanitize.{sanitize_message}
use palworld_pal_crosschat.WordFilter.{
  RegexLib, WordFilter, FilterHit, active, is_muted, find_match,
}
use palworld_pal_crosschat.ChatInject.{push_bounded}
use palworld_pal_crosschat.ChatCapture.Text.{try_parse_set_discord}
use palworld_pal_crosschat.ChatCapture.Hook.{HookContext, read_hook_params}
use palworld_pal_crosschat.ChatCapture.State.{PendingChatRelay, ChatCapture, max_pending_relays}
use palworld_pal_crosschat.ChatCapture.Stages.{
  Sender, HookClock, mute_key, sender_id, accept_setdiscord, read_sender, upsert_sender,
}
use palworld_pal_crosschat.ChatCapture.Handle.{relay, gate, filter_and_gate, handle_hook}
use palworld_pal_crosschat.ChatCapture.Quiet.{
  is_public, filter_stops, gate-relay, find_match-is_muted, filter_and_gate-IsQuiet,
}

module _ {lib : RegexLib} where
  abbrev pub queues : ChatCapture lib → BoundedQueue OutboundMessage × List PendingChatRelay
  queues c = (c.outbound, c.pending_chat_relays)

  -- Both queues behind a line that is relayed: with a name it goes out at once; without one it waits,
  -- with the tag of the local server where that is shown.
  abbrev pub relayed_queues :
      Config
      → ChatCapture lib
      → Sender
      → Bytes
      → ℕ
      → BoundedQueue OutboundMessage × List PendingChatRelay
  relayed_queues config c s message category =
      let guild_name = sanitize_message (read_guild_name s.state) 64 in
      if is_empty s.name
      then (
        c.outbound,
        push_bounded max_pending_relays c.pending_chat_relays (record {
          controller = s.controller;
          message = message;
          guild_name = guild_name;
          sender_id = sender_id s;
          sender_uid = s.uid;
          category = category;
          local_tag =
              config.show_local_server_tag && is_some c.inject && category == chat_category_global;
        }),
      )
      else (
        push c.outbound (record {
          sender_name = s.name;
          sender_id = sender_id s;
          guild_name = guild_name;
          message = message;
        }),
        c.pending_chat_relays,
      )

  queues-relay :
      (config : Config) (c : ChatCapture lib) (context : HookContext) (s : Sender) (message : Bytes)
      (category : ℕ)
      → queues (relay config c context s message category).0
        ≡ relayed_queues config c s message category
  unfolding relay
  queues-relay config c context s message category = elim (Bool-cases (is_empty s.name)) [
    | inl e ↦ rw e refl
    | inr e ↦ rw e refl
  ]

  queues-gate :
      (config : Config) (c : ChatCapture lib) (context : HookContext) (s : Sender) (message : Bytes)
      (category : ℕ)
      → is_public config message category ≡ true
      → queues (gate config c context s message category).0
        ≡ relayed_queues config c s message category
  queues-gate config c context s message category h =
      rw (gate-relay config c context s message category h)
        (queues-relay config c context s message category)

  queues-filter_and_gate :
      (config : Config) (c : ChatCapture lib) (context : HookContext) (s : Sender) (message : Bytes)
      (category : ℕ) (clock : HookClock) (filter : Option (WordFilter lib))
      → is_public config message category
          && not (filter_stops filter (mute_key s) message clock.checked)
        ≡ true
      → queues (filter_and_gate config c context s message category clock filter).0
        ≡ relayed_queues config c s message category
  unfolding filter_and_gate
  queues-filter_and_gate config c context s message category clock none h =
      queues-gate config c context s message category (ground arith)
  queues-filter_and_gate config c context s message category clock (some f) h =
      elim (Bool-cases (active lib f)) [
        | inr a ↦ rw a (queues-gate config c context s message category (ground arith))
        | inl a ↦ elim (Bool-cases (is_muted lib f (mute_key s) clock.checked).0) [
          | inl m ↦ absurd (ground arith)
          | inr m ↦ elim (Option-cases (find_match lib f message)) [
            | inl none_found ↦
                rw (a, m, find_match-is_muted f (mute_key s) clock.checked message, none_found)
                  (queues-gate config
                    (record c { filter = some (is_muted lib f (mute_key s) clock.checked).1 })
                    context s message category (ground arith))
            | inr (hit, found) ↦ absurd (refuted h a m hit found)
          ]
        ]
      ]
    where
      refuted :
          is_public config message category
              && not (filter_stops (some f) (mute_key s) message clock.checked)
            ≡ true
          → active lib f ≡ true
          → (is_muted lib f (mute_key s) clock.checked).0 ≡ false
          → (hit : FilterHit) → find_match lib f message ≡ some hit
          → ⊥
      refuted v a m hit found =
          let stops : filter_stops (some f) (mute_key s) message clock.checked ≡ true =
            rw (a, m, found) refl in
          ground arith

  queues-front :
      (config : Config) (clock : HookClock) (c : ChatCapture lib) (context : HookContext)
      (s : Sender) (message : Bytes) (category : ℕ) (command : Option Bytes)
      → (let out : ChatCapture lib × HookContext =
            (if is_empty message then (c, context) else elim command [
              | some connect_code ↦ accept_setdiscord c context connect_code
              | none ↦
                  filter_and_gate config
                    (record c { audience = upsert_sender c.audience s })
                    context
                    s
                    message
                    category
                    clock
                    c.filter
            ]) in
          queues out.0)
        ≡ (if not (is_empty message)
              && not (is_some command)
              && (is_public config message category
                  && not (filter_stops c.filter (mute_key s) message clock.checked))
            then relayed_queues config c s message category
            else queues c)
  queues-front config clock c context s message category (some code) =
      elim (Bool-cases (is_empty message)) [
        | inl e ↦ rw e refl
        | inr e ↦ rw e (unfold accept_setdiscord in refl)
      ]
  queues-front config clock c context s message category none =
      elim (Bool-cases (is_empty message)) [
        | inl e ↦ rw e refl
        | inr e ↦ rw e (
            behind
              (is_public config message category
                && not (filter_stops c.filter (mute_key s) message clock.checked))
              refl)
      ]
    where
      after : ChatCapture lib × HookContext
      after =
          filter_and_gate config (record c { audience = upsert_sender c.audience s }) context s
            message category clock c.filter

      behind :
          (b : Bool)
          → is_public config message category
              && not (filter_stops c.filter (mute_key s) message clock.checked)
            ≡ b
          → queues after.0 ≡ (if b then relayed_queues config c s message category else queues c)
      behind true v =
          queues-filter_and_gate config (record c { audience = upsert_sender c.audience s }) context
            s message category clock c.filter v
      behind false v =
          let quiet =
            filter_and_gate-IsQuiet config (record c { audience = upsert_sender c.audience s })
              context s message category clock c.filter v in
          rw (quiet.0, quiet.1) refl

  -- One chat line, whatever the engine answers: it reaches the queue to the database, or the one that
  -- leads there, exactly when its text is not empty after cleaning, it is no !setdiscord command, it
  -- does not start with '/' or '!', its category is a relayed one, it carries no server's prefix, and
  -- an active filter neither holds a mute of its sender nor matches it. Every other line leaves both
  -- queues as they are.
  pub handle_hook_lem :
      (reencode : Bytes → Bytes) (config : Config) (clock : HookClock) (c : ChatCapture lib)
      (context : HookContext)
      → let read = read_hook_params reencode context in
        let message = sanitize_message read.0 512 in
        let s = read_sender c context.controller in
        queues (handle_hook reencode config clock c context).0 ≡ (
          if not (is_empty message)
            && not (is_some (try_parse_set_discord message))
            && (is_public config message read.1
                && not (filter_stops c.filter (mute_key s) message clock.checked))
          then relayed_queues config c s message read.1
          else queues c)
  unfolding handle_hook
  handle_hook_lem reencode config clock c context =
      let read = read_hook_params reencode context in
      let message = sanitize_message read.0 512 in
      queues-front config clock c context (read_sender c context.controller) message read.1
        (try_parse_set_discord message)

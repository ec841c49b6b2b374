-- ===== src/Tests/Chat.antt =====
-- Queues, mutes, the webhook and the chat hook.
use palworld_pal_crosschat.Base.{
  ℕ, ◌+◌, ◌*◌, ◌%◌, ◌≡◌, refl, true, not, ◌&&◌, none, some, List, [], ◌∷◌, ◌++◌, map, arith, ltb,
  ◌==◌, if◌then◌else◌, is_some, length, is_empty, filter_by, Bytes, codes, str_eq, starts_with,
  lookup, insert, pos,
}
use palworld_pal_crosschat.Guid.{nil_guid}
use palworld_pal_crosschat.Engine.{Controller, WeakGet, gone, live}
use palworld_pal_crosschat.Queues.{
  BoundedQueue, push_all, u64_mod, empty_queue, queue_max, OutboundMessage, LinkResult,
}
use palworld_pal_crosschat.Queues.History.{
  Call, pushes, pops, run, item_of, pushed, IsValid, is_dropped, run_keeps,
}
use palworld_pal_crosschat.Config.Types.{Config, default_config}
use palworld_pal_crosschat.Sanitize.{sanitize_message}
use palworld_pal_crosschat.Replace.{find_at}
use palworld_pal_crosschat.WordFilter.{
  RegexLib, WordFilter, int64_time, new_filter, mute, find_active_mute, is_muted,
  try_consume_mute_notify, ns_per_minute,
}
use palworld_pal_crosschat.WordFilter.Mutes.{is_muted-mute}
use palworld_pal_crosschat.Webhook.{
  WinHttp, parse_url, json_body, status_ok, post_discord_webhook, new_worker,
}
use palworld_pal_crosschat.Webhook.Post.{open_after, post_discord_webhook_lem}
use palworld_pal_crosschat.Audience.Defs.{new_tracker}
use palworld_pal_crosschat.ChatCapture.Text.{try_parse_set_discord}
use palworld_pal_crosschat.ChatCapture.Hook.{
  RawFstring, HookContext, by_value, read_hook_params, try_clear_message,
}
use palworld_pal_crosschat.Exceptions.{IsThrottled, empty_log}
use palworld_pal_crosschat.ChatCapture.Entry.{
  HookCall, run_hooks, last_time, throws_of, run_hooks-IsThrottled,
}
use palworld_pal_crosschat.ChatCapture.Clear.{IsCleared, try_clear_message_lem}
use palworld_pal_crosschat.ChatCapture.State.{ChatCapture}
use palworld_pal_crosschat.ChatCapture.Stages.{HookClock, mute_key, read_sender}
use palworld_pal_crosschat.ChatCapture.Handle.{handle_hook}
use palworld_pal_crosschat.ChatCapture.Quiet.{is_public, filter_stops}
use palworld_pal_crosschat.ChatCapture.Privacy.{queues, relayed_queues, handle_hook_lem}
use palworld_pal_crosschat.ChatInject.{ChatInject, new_inject}
use palworld_pal_crosschat.ChatCapture.Bounds.{IsBounded, handle_hook-IsBounded}
use palworld_pal_crosschat.ChatCapture.Deferred.{flush_pending_chat_relays}
use palworld_pal_crosschat.ChatCapture.Delivery.{CarriesEach, flush_pending_chat_relays_lem}

abbrev pair : BoundedQueue ℕ
pair = record { deque = 1 ∷ 2 ∷ []; max_size = 2; drops = 5 }

pair-IsValid : IsValid pair
pair-IsValid = record { has_room = omega arith; bounded = omega arith; no_wrap = omega arith }

abbrev history : List (Call ℕ)
history = pushes 3 ∷ pops ∷ pushes 4 ∷ pushes 5 ∷ []

run_keeps_example :
    (map item_of (run pair history).1 ++ (run pair history).0.deque ≡ pair.deque ++ pushed history)
    × ((run pair history).0.drops
        ≡ (pair.drops + length (filter_by is_dropped (run pair history).1)) % u64_mod)
run_keeps_example = run_keeps pair history pair-IsValid

-- Patterns that are plain texts; one that starts with a parenthesis is refused.
abbrev pub plain : RegexLib
plain = record {
  Regex = Bytes;
  compile = λ s. if starts_with (codes "(") s then none else some s;
  search = λ text re. some (is_some (find_at re text));
}

abbrev strict : Config
strict = record default_config {
  filter_patterns =
      record { pattern = codes "("; mute_minutes = pos 1; mute_message = [] }
      ∷ record { pattern = codes "spam"; mute_minutes = pos 2; mute_message = codes "no spam" }
      ∷ [];
}

abbrev filter : WordFilter plain
filter = new_filter plain strict

abbrev ann : Bytes
ann = codes "ann"

abbrev muted : WordFilter plain
muted = mute plain filter ann (codes "spam") (pos 2) 1_000

is_muted-mute_example :
    (is_muted plain (mute plain filter ann (codes "spam") (pos 2) 1_000) ann 5_000).0 ≡ (
      if str_eq ann ann
      then ltb 5_000 (1_000 + 2 * ns_per_minute)
      else (is_muted plain filter ann 5_000).0)
is_muted-mute_example =
    is_muted-mute plain filter ann ann (codes "spam") 2 1_000 5_000 (λ e. cc) (λ e. cc)
      (omega arith) (omega arith)

abbrev told_at : ℕ
told_at = 20_000_000_000

tells : (try_consume_mute_notify plain muted ann 15 told_at).0 ≡ true
unfolding try_consume_mute_notify find_active_mute lookup mute insert new_filter int64_time
tells = refl

abbrev web : WinHttp
web = record {
  multi_byte_to_wide_char = λ s. s;
  crack_url = λ s. some (record {
    is_https = true;
    host_name = s;
    port_number = 443;
    url_path = [];
    extra_info = [];
  });
  opens_session = true;
  opens_connection = λ host port. port == 443;
  opens_request = λ path https. https;
  sends_request = λ body. true;
  receives_response = true;
  query_status = some 204;
}

abbrev site : Bytes
site = codes "discord.com"

post_discord_webhook_lem_example :
    (open_after [] (post_discord_webhook web site ann).1 ≡ some [])
    × ((post_discord_webhook web site ann).0 ≡ (
        not (is_empty site)
        && not (is_empty ann)
        && (parse_url web site).valid
        && web.opens_session
        && web.opens_connection (parse_url web site).host (parse_url web site).port
        && web.opens_request (parse_url web site).path (parse_url web site).https
        && web.sends_request (json_body ann)
        && web.receives_response
        && status_ok web.query_status))
post_discord_webhook_lem_example = post_discord_webhook_lem web site ann

abbrev hello : RawFstring
hello = record { text = some (codes "hello all"); num = pos 10; max = pos 16 }

abbrev context : HookContext
context = record {
  controller = some (record { handle = 4; state = none });
  out_parms =
      record { property = some (codes "Category"); prop_addr = none }
      ∷ record { property = some (codes "Message"); prop_addr = some hello }
      ∷ [];
  has_locals = true;
  message_param = some (by_value (some hello));
  category_param = some 1;
}

try_clear_message_lem_example : IsCleared context (try_clear_message context)
try_clear_message_lem_example = try_clear_message_lem context

abbrev pub capture : ChatCapture plain
capture = record {
  pending_setdiscord = [];
  pending_chat_relays = [];
  link_clients = (codes "steam_7", record { controller = some 4; player_uid = nil_guid }) ∷ [];
  platform_by_player_uid = [];
  name_by_player_uid = [];
  outbound = empty_queue queue_max;
  link_jobs = empty_queue queue_max;
  webhook = some new_worker;
  filter = some filter;
  inject = some new_inject;
  audience = some new_tracker;
}

abbrev clock : HookClock
clock = record { checked = 1; notified = 2; measured = 3; muted = 4 }

handle_hook_lem_example : queues (handle_hook (λ s. s) strict clock capture context).0 ≡ (
    if not (is_empty (sanitize_message (read_hook_params (λ s. s) context).0 512))
      && not (
          is_some
            (try_parse_set_discord (sanitize_message (read_hook_params (λ s. s) context).0 512)))
      && (is_public strict
            (sanitize_message (read_hook_params (λ s. s) context).0 512)
            (read_hook_params (λ s. s) context).1
          && not (
              filter_stops capture.filter
                (mute_key (read_sender capture context.controller))
                (sanitize_message (read_hook_params (λ s. s) context).0 512)
                clock.checked))
    then relayed_queues strict capture
        (read_sender capture context.controller)
        (sanitize_message (read_hook_params (λ s. s) context).0 512)
        (read_hook_params (λ s. s) context).1
    else queues capture)
handle_hook_lem_example = handle_hook_lem (λ s. s) strict clock capture context

capture-IsBounded : IsBounded capture
capture-IsBounded = (omega arith, omega arith, omega arith)

handle_hook-IsBounded_example : IsBounded (handle_hook (λ s. s) strict clock capture context).0
handle_hook-IsBounded_example =
    handle_hook-IsBounded (λ s. s) strict clock capture context capture-IsBounded

abbrev ready : ChatInject
ready = record new_inject { game_state = some 9; world_ready_at = 1 }

abbrev game_states : ℕ → WeakGet ℕ
game_states handle = live handle

abbrev controllers : ℕ → WeakGet Controller
controllers handle = gone

abbrev waiting : ChatCapture plain
waiting = record capture {
  pending_chat_relays =
      record {
        controller = some 4;
        message = codes "hello";
        guild_name = [];
        sender_id = ann;
        sender_uid = nil_guid;
        category = 1;
        local_tag = true;
      }
      ∷ [];
}

flush_pending_chat_relays_lem_example :
    ((flush_pending_chat_relays controllers waiting).pending_chat_relays ≡ [])
    × ((ms : List OutboundMessage) × ((flush_pending_chat_relays controllers waiting).outbound
          ≡ push_all waiting.outbound ms)
        × CarriesEach waiting.pending_chat_relays ms)
flush_pending_chat_relays_lem_example = flush_pending_chat_relays_lem controllers waiting

abbrev linked : LinkResult
linked = record { notice = codes "linked"; platform_user_id = codes "steam_7" }

-- A call that ends, and two that throw.
abbrev hook_calls : List (HookCall plain)
hook_calls =
    record { clock = clock; caught_at = 7; context = context; stopped_by = none }
    ∷ record {
      clock = clock;
      caught_at = 70_000_000_000;
      context = context;
      stopped_by = some (some (codes "bad"), (capture, context));
    }
    ∷ record {
      clock = clock;
      caught_at = 90_000_000_000;
      context = context;
      stopped_by = some (none, (capture, context));
    }
    ∷ []

run_hooks-IsThrottled_example :
    IsThrottled
      (last_time 0 hook_calls)
      (throws_of [] hook_calls)
      (run_hooks (λ s. s) strict hook_calls (some capture) empty_log).1
run_hooks-IsThrottled_example =
    run_hooks-IsThrottled plain (λ s. s) strict hook_calls capture
      (omega arith, (omega arith, (omega arith, tt)))

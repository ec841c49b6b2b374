-- ===== src/Tests/Updates.antt =====
-- ChatInject and the update of the mod, on a game that calls without a fault.
use palworld_pal_crosschat.Base.{
  ℕ, ◌+◌, ◌≤◌, ◌≡◌, refl, Bool, true, false, none, some, List, [], ◌∷◌, map, arith, All, length,
  Bytes, codes, str_eq, lookup, insert, pos,
}
use palworld_pal_crosschat.Guid.{Guid, nil_guid, guid_eq, format_guid, hex}
use palworld_pal_crosschat.Engine.{WeakGet, live, gone, safe_weak_get, Controller}
use palworld_pal_crosschat.Config.Types.{default_config}
use palworld_pal_crosschat.Queues.{
  InboundMessage, BoundedQueue, OutboundMessage, empty_queue, queue_max, try_pop,
}
use palworld_pal_crosschat.WordFilter.{RegexLib}
use palworld_pal_crosschat.Audience.Defs.{
  is_online_player_uid, AudienceTracker, new_tracker, remember, refresh, rebuild_lists,
}
use palworld_pal_crosschat.PlatformId.{normalize_platform_user_id, classify}
use palworld_pal_crosschat.Sanitize.{sanitize_message, sanitize_notice}
use palworld_pal_crosschat.Guid.RoundTrip.{IsGuid}
use palworld_pal_crosschat.Audience.Online.{
  joins, leaves, run_changes, run_set, is_online_player_uid-run_set,
}
use palworld_pal_crosschat.ChatInject.Drain.{drain}
use palworld_pal_crosschat.ChatInject.{new_inject, enqueue_server_notice}
use palworld_pal_crosschat.ChatInject.Drain.{drain_inbound}
use palworld_pal_crosschat.ChatInject.Inbound.{Drains, drain_inbound-Drains}
use palworld_pal_crosschat.ChatInject.Ready.{Candidate, completes}
use palworld_pal_crosschat.ChatInject.Game.{Game, GameCall, notice_call, Session}
use palworld_pal_crosschat.ChatInject.Lines.{Line, groups, broadcast_dual}
use palworld_pal_crosschat.ChatInject.Silence.{IsQuiet}
use palworld_pal_crosschat.ChatInject.History.{Tick, drains, turns, run_ticks, run_ticks-IsQuiet}
use palworld_pal_crosschat.ChatInject.Addressed.{IsAddressed, broadcast_dual-IsAddressed}
use palworld_pal_crosschat.ChatCapture.Delivery.{CarriesEach}
use palworld_pal_crosschat.DbWorker.State.{DbWorker}
use palworld_pal_crosschat.DbWorker.Worker.{inserted}
use palworld_pal_crosschat.DbWorker.Events.{run_events}
use palworld_pal_crosschat.DbWorker.Drain.{sends_for}
use palworld_pal_crosschat.PalCrosschat.{Mod, on_update}
use palworld_pal_crosschat.PalCrosschat.EndToEnd.{relays_get_inserted}
use palworld_pal_crosschat.Tests.Database.{table_lib, two_waiting}

-- A pattern is the text that it matches.
abbrev plain_regex : RegexLib
plain_regex = record { Regex = Bytes; compile = some; search = λ text re. some (str_eq text re) }

-- A notice faults, and every other call succeeds. The world counts the allocations.
abbrev call_succeeds : GameCall → Bool
call_succeeds (notice_call _ _) = false
call_succeeds _ = true

abbrev a_candidate : Candidate
a_candidate = record {
  handle = 9;
  class_private = completes true;
  vtable = completes true;
  weak = completes true;
}

abbrev a_game : Game
a_game = record {
  World = ℕ;
  to_wide = λ s. s;
  weak_get = λ _ handle. live handle;
  weak_states = λ _ _. gone;
  find_first_of = λ w. (completes (some a_candidate), w);
  find_players = λ _. some [];
  find_function = λ _ _. true;
  has_chat_property = λ _. true;
  has_chat_struct = λ _. true;
  has_field = λ _ _. true;
  has_notice_property = λ _. true;
  has_screen_function = λ _ _. true;
  has_screen_property = λ _ _. true;
  malloc = λ _ w. (true, w + 1);
  free = λ w. w;
  process_event = λ call w. (call_succeeds call, w);
}

abbrev inbound_hello : BoundedQueue InboundMessage
inbound_hello = record {
  deque =
      record {
        id = pos 5;
        origin = codes "pal-eu";
        sender_name = codes "Bob";
        sender_id = [];
        guild_name = [];
        message = codes "hi";
      }
      ∷ [];
  max_size = 500;
  drops = 0;
}

-- The game state is seen, and 20 seconds later a notice is due and a message has come in.
abbrev ticks : List (Tick a_game)
ticks =
    drains 1 (λ _. []) (empty_queue queue_max)
    ∷ turns (enqueue_server_notice new_inject (codes "maintenance")).deferred (some new_tracker) 7
    ∷ drains 20_000_000_001 (λ _. []) inbound_hello
    ∷ drains 90_000_000_000 (λ _. []) inbound_hello
    ∷ []

abbrev first_session : Session a_game
first_session = record { chat = new_inject; audience = some new_tracker; world = 0; calls = [] }

ticks_call :
    (run_ticks a_game plain_regex default_config none ticks first_session).calls
    ≡ (notice_call 9 (codes "maintenance"), false) ∷ []
unfolding run_ticks drain safe_weak_get try_pop sanitize_message enqueue_server_notice
    sanitize_notice
ticks_call = refl

run_ticks-IsQuiet_example :
    IsQuiet (run_ticks a_game plain_regex default_config none ticks first_session).calls
run_ticks-IsQuiet_example =
    run_ticks-IsQuiet a_game plain_regex default_config none ticks (some new_tracker) 0

abbrev ann : Guid
ann = record { a = 1; b = 2; c = 3; d = 4 }

-- Two players, one of them on Xbox, who writes.
abbrev both : AudienceTracker
both =
    record (remember (remember new_tracker ann (codes "gdk_1"))
      (record { a = 5; b = 6; c = 7; d = 8 }) (codes "steam_2")) { bootstrapped = true }

abbrev line : Line
line = record {
  xbox_sender = codes "Ann";
  xbox_message = codes "hi";
  formatted_sender = codes "[NA] Ann";
  formatted_message = codes "hi";
  category = 1;
  sender_player_uid = some ann;
}

abbrev talking : Session a_game
talking = record { chat = new_inject; audience = some both; world = 0; calls = [] }

broadcast_dual-IsAddressed_example :
    All
      (IsAddressed (groups a_game talking).1.audience line (groups a_game talking).0)
      (broadcast_dual a_game line talking).1.calls
unfolding groups remember guid_eq rebuild_lists insert format_guid hex refresh lookup
    normalize_platform_user_id classify
broadcast_dual-IsAddressed_example =
    broadcast_dual-IsAddressed a_game line talking (λ bytes w. refl) (omega arith) (omega arith)
      refl

-- A mod with one line that waits to be relayed.
abbrev relaying : Mod plain_regex a_game
relaying = record {
  capture = record {
    pending_setdiscord = [];
    pending_chat_relays =
        record {
          controller = none;
          sender_id = codes "1";
          sender_uid = nil_guid;
          message = codes "hi";
          guild_name = [];
          category = 1;
          local_tag = false;
        }
        ∷ [];
    link_clients = [];
    platform_by_player_uid = [];
    name_by_player_uid = [];
    outbound = empty_queue queue_max;
    link_jobs = empty_queue queue_max;
    webhook = none;
    filter = none;
    inject = some new_inject;
    audience = some new_tracker;
  };
  inbound = inbound_hello;
  link_results = empty_queue queue_max;
  db_started = true;
  registered = true;
  hook_ids = (pos 1, pos 2);
  world = 0;
  calls = [];
}

abbrev no_controllers : ℕ → WeakGet Controller
no_controllers _ = gone

-- The database thread behind that update.
abbrev after_update : DbWorker table_lib
after_update = record two_waiting {
  outbound =
      (on_update plain_regex a_game default_config 5 (λ _. []) no_controllers
        relaying).capture.outbound;
}

relays_get_inserted_example :
    (ms : List OutboundMessage) × CarriesEach relaying.capture.pending_chat_relays ms
    × ((run_events default_config (sends_for 1 5) after_update).1 ≡ map inserted ms)
relays_get_inserted_example =
    relays_get_inserted plain_regex a_game default_config 5 (λ _. []) no_controllers relaying
      table_lib after_update refl (omega arith) refl refl (λ params d. refl)

ann-IsGuid : IsGuid ann
ann-IsGuid = record {
  a_fits = omega arith;
  b_fits = omega arith;
  c_fits = omega arith;
  d_fits = omega arith;
}

is_online_player_uid-run_set_example :
    is_online_player_uid (run_changes (joins ann (codes "gdk_1") none ∷ leaves ann ∷ []) both) ann
    ≡ run_set (joins ann (codes "gdk_1") none ∷ leaves ann ∷ []) (is_online_player_uid both) ann
is_online_player_uid-run_set_example =
    is_online_player_uid-run_set (joins ann (codes "gdk_1") none ∷ leaves ann ∷ []) both ann
      (ann-IsGuid, (ann-IsGuid, tt)) ann-IsGuid

-- Another message in each round.
abbrev one_each : ℕ → List InboundMessage
one_each _ = inbound_hello.deque

drain_inbound-Drains_example :
    (let (rest, s') =
        drain_inbound a_game default_config plain_regex none one_each 3 inbound_hello
          first_session in
      Drains a_game default_config plain_regex none one_each 3 inbound_hello.deque first_session
        rest.deque s'
      × (length inbound_hello.deque ≤ length rest.deque + 3))
drain_inbound-Drains_example =
    drain_inbound-Drains a_game default_config plain_regex none one_each 3 inbound_hello
      first_session (omega arith)

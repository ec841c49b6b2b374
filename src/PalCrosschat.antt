-- ===== src/PalCrosschat.antt =====
-- src/PalCrosschat.cpp: the mod, which makes the parts, and on each update of the game's thread lets
-- them do what waits. The registration of the chat hook is that of src/ChatCapture.cpp.
pub mod Update
pub mod EndToEnd
pub mod Linked
use palworld_pal_crosschat.Base.{
  ℕ, zero, ◌-◌, ◌/◌, Bool, true, false, not, ◌&&◌, ◌||◌, Option, none, some, List, [], ◌∷◌,
  if◌then◌else◌, is_empty, all, ℤ, pos,
}
use palworld_pal_crosschat.Engine.{WeakGet, Controller}
use palworld_pal_crosschat.Config.Types.{Config}
use palworld_pal_crosschat.Queues.{BoundedQueue, InboundMessage, LinkResult, empty_queue, queue_max}
use palworld_pal_crosschat.WordFilter.{RegexLib, new_filter}
use palworld_pal_crosschat.Webhook.{new_worker, start_worker, stop_worker}
use palworld_pal_crosschat.Audience.Defs.{new_tracker}
use palworld_pal_crosschat.Audience.Hooks.{register, unregister, tick}
use palworld_pal_crosschat.ChatInject.{ChatInject, new_inject}
use palworld_pal_crosschat.ChatInject.Game.{Game, GameCall, Session}
use palworld_pal_crosschat.ChatInject.Drain.{drain}
use palworld_pal_crosschat.ChatCapture.State.{ChatCapture, through}
use palworld_pal_crosschat.ChatCapture.Deferred.{flush_deferred, deliver_link_result}

-- The mod where it is enabled: all its parts are there. `capture` points to the filter, the webhook,
-- ChatInject, the audience, and the queues that it fills. The game and its calls go with it.
pub record Mod (lib : RegexLib) (game : Game) : Type 0 where
  pub capture : ChatCapture lib
  pub inbound : BoundedQueue InboundMessage
  pub link_results : BoundedQueue LinkResult
  pub db_started : Bool
  pub registered : Bool
  pub hook_ids : ℤ × ℤ
  pub world : game.World
  pub calls : List (GameCall × Bool)

-- `ids.first != 0 || ids.second != 0`
abbrev pub is_hooked : ℤ × ℤ → Bool
is_hooked (pos zero, pos zero) = false
is_hooked _ = true

-- The loop that pops the link results and delivers each.
unfoldable pub deliver_from :
    {lib : RegexLib}
    → (ℕ → WeakGet Controller)
    → List LinkResult
    → BoundedQueue LinkResult
    → ChatCapture lib
    → ChatCapture lib × BoundedQueue LinkResult
unfolding deliver_link_result
deliver_from controllers [] q c = (c, q)
deliver_from controllers (result ∷ results) q c =
    deliver_from controllers results (record q { deque = results })
      (deliver_link_result controllers c result)

module _ (lib : RegexLib) (game : Game) where
  -- The constructor, after the settings were read.
  unfoldable pub new_mod : Config → game.World → Option (Mod lib game)
  unfolding new_filter start_worker
  new_mod config w =
      if not config.enabled
      then none
      else some (record {
        capture = record {
          pending_setdiscord = [];
          pending_chat_relays = [];
          link_clients = [];
          platform_by_player_uid = [];
          name_by_player_uid = [];
          outbound = empty_queue queue_max;
          link_jobs = empty_queue queue_max;
          webhook = some (
              if not (is_empty config.mute_log_webhook) && not (is_empty config.filter_patterns)
              then start_worker new_worker
              else new_worker);
          filter = some (new_filter lib config);
          inject = some new_inject;
          audience = some new_tracker;
        };
        inbound = empty_queue queue_max;
        link_results = empty_queue queue_max;
        db_started = true;
        registered = false;
        hook_ids = (pos 0, pos 0);
        world = w;
        calls = [];
      })

  unfoldable pub register_capture : ℤ × ℤ → Mod lib game → Mod lib game
  register_capture ids m = record m { hook_ids = ids; registered = is_hooked ids }

  unfoldable pub unregister_capture : Mod lib game → Mod lib game
  unregister_capture m = if not m.registered then m else record m { registered = false }

  -- The registration of the join hook throws (`none`) or gives ids; that of the chat hook gives ids.
  unfoldable pub on_unreal_init : Option (ℤ × ℤ) → ℤ × ℤ → Mod lib game → Mod lib game
  unfolding register register_capture
  on_unreal_init join_ids chat_ids m = register_capture chat_ids (record m {
    capture = record m.capture { audience = through (λ t. register t join_ids) m.capture.audience };
  })

  -- `Drain`, on what ChatInject points to, with what the database thread pushes meanwhile.
  unfoldable pub drain_with :
      Config → ℕ → (ℕ → List InboundMessage) → Option ChatInject → Mod lib game → Mod lib game
  unfolding drain
  drain_with config now arrivals none m = m
  drain_with config now arrivals (some chat) m =
      let (inbound, s) =
        drain game config lib m.capture.filter now arrivals m.inbound (record {
          chat = chat;
          audience = m.capture.audience;
          world = m.world;
          calls = m.calls;
        }) in
      record m {
        capture = record m.capture { inject = some s.chat; audience = s.audience };
        inbound = inbound;
        world = s.world;
        calls = s.calls;
      }

  unfoldable pub deliver_results : (ℕ → WeakGet Controller) → Mod lib game → Mod lib game
  unfolding deliver_from
  deliver_results controllers m =
      let (capture, rest) =
        deliver_from controllers m.link_results.deque m.link_results m.capture in
      record m { capture = capture; link_results = rest }

  unfoldable pub on_update :
      Config
      → ℕ
      → (ℕ → List InboundMessage)
      → (ℕ → WeakGet Controller)
      → Mod lib game
      → Mod lib game
  unfolding flush_deferred tick deliver_results drain_with
  on_update config now arrivals controllers m =
      let flushed = flush_deferred controllers m.capture in
      let ticked = record m {
        capture = record flushed {
          audience = through (λ t. tick (game.weak_states m.world) t) flushed.audience;
        };
      } in
      let delivered = deliver_results controllers ticked in
      drain_with config now arrivals delivered.capture.inject delivered

  -- The destructor.
  unfoldable pub unload : Mod lib game → Mod lib game
  unfolding unregister_capture unregister stop_worker
  unload m =
      let unhooked = unregister_capture m in
      record unhooked {
        capture = record unhooked.capture {
          audience = through unregister unhooked.capture.audience;
          webhook = through stop_worker unhooked.capture.webhook;
        };
        db_started = false;
      }

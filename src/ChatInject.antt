-- ===== src/ChatInject.antt =====
-- src/ChatInject.h and src/ChatInject.cpp: the queue of deferred actions, into which the hooks put what
-- is done later, on the game thread. When the game is ready for it stands in Ready, the calls of the
-- game in Game and Display, the lines of chat in Lines, and the flush and Drain in Drain. A weak
-- pointer is the handle of its object.
pub mod Ready
pub mod Circuit
pub mod Game
pub mod Display
pub mod Lines
pub mod Drain
pub mod Inbound
pub mod Silence
pub mod Quiet
pub mod History
pub mod Addressed
use palworld_pal_crosschat.Base.{
  ℕ, ◌||◌, Option, none, some, List, [], ◌∷◌, ◌++◌, leb, if◌then◌else◌, length, is_empty, drop,
  Bytes, Bool, false,
}
use palworld_pal_crosschat.Guid.{Guid, nil_guid, guid_eq}
use palworld_pal_crosschat.ChatApi.{chat_category_global}

pub data DeferredKind : Type 0 where
  local_tagged server_notice screen_log private_chat : DeferredKind

pub record DeferredAction : Type 0 where
  pub kind : DeferredKind
  pub sender_name : Bytes
  pub guild_name : Bytes
  pub message : Bytes
  pub category : ℕ
  pub controller : Option ℕ
  pub receivers : List Guid
  pub sender_uid : Guid

-- A time of 0 stands for "not yet"; a function of the game is there or not (`broadcast_fn`);
-- `find_faults` is the static counter of `ResolveGameState`.
pub record ChatInject : Type 0 where
  pub game_state : Option ℕ
  pub broadcast_fn : Bool
  pub server_notice_fn : Bool
  pub offsets_ready : Bool
  pub deferred : List DeferredAction
  pub world_ready_at : ℕ
  pub find_faults : ℕ
  pub inject_circuit_open : Bool

abbrev pub new_inject : ChatInject
new_inject = record {
  game_state = none;
  broadcast_fn = false;
  server_notice_fn = false;
  offsets_ready = false;
  deferred = [];
  world_ready_at = 0;
  find_faults = 0;
  inject_circuit_open = false;
}

-- `DeferredAction{}`
abbrev pub default_action : DeferredAction
default_action = record {
  kind = server_notice;
  sender_name = [];
  guild_name = [];
  message = [];
  category = 0;
  controller = none;
  receivers = [];
  sender_uid = nil_guid;
}

-- `push_back` on a deque of at most `limit` items, whose oldest item makes room: `m_deferred` here and
-- both pending deques of src/ChatCapture.cpp.
unfoldable pub push_bounded {ℓ} : {A : Type ℓ} → ℕ → List A → A → List A
push_bounded limit items item =
    (if leb limit (length items) then drop 1 items else items) ++ item ∷ []

abbrev pub max_deferred_actions : ℕ
max_deferred_actions = 64

unfoldable pub defer : ChatInject → DeferredAction → ChatInject
unfolding push_bounded
defer inject action = record inject {
  deferred = push_bounded max_deferred_actions inject.deferred action;
}

unfoldable pub enqueue_local_tagged : ChatInject → Bytes → Bytes → Bytes → ℕ → Guid → ChatInject
unfolding defer
enqueue_local_tagged inject sender_name guild_name message category sender_player_uid =
    defer inject (record default_action {
      kind = local_tagged;
      sender_name = sender_name;
      guild_name = guild_name;
      message = message;
      category = category;
      sender_uid = sender_player_uid;
    })

unfoldable pub enqueue_server_notice : ChatInject → Bytes → ChatInject
unfolding defer
enqueue_server_notice inject notice_message =
    defer inject (record default_action { kind = server_notice; message = notice_message })

-- A null controller is `none`.
unfoldable pub enqueue_screen_log : ChatInject → Option ℕ → Bytes → ChatInject
unfolding defer
enqueue_screen_log inject none message = inject
enqueue_screen_log inject (some handle) message =
    defer inject
      (record default_action { kind = screen_log; message = message; controller = some handle })

unfoldable pub enqueue_private_chat : ChatInject → Guid → Bytes → ChatInject
unfolding defer guid_eq
enqueue_private_chat inject receiver_player_uid message =
    if guid_eq receiver_player_uid nil_guid || is_empty message
    then inject
    else defer inject (record default_action {
      kind = private_chat;
      message = message;
      receivers = receiver_player_uid ∷ [];
      category = chat_category_global;
    })

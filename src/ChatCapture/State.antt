-- ===== src/ChatCapture/State.antt =====
-- The state of `ChatCapture`, with the objects that it holds pointers to: a null pointer is `none`.
use palworld_pal_crosschat.Base.{
  ℕ, Bool, ◌||◌, Option, none, some, List, [], if◌then◌else◌, is_empty, Bytes, codes, str_eq,
  lookup, insert,
}
use palworld_pal_crosschat.Guid.{Guid, nil_guid, guid_eq, format_guid}
use palworld_pal_crosschat.Engine.{Controller, PlayerState}
use palworld_pal_crosschat.Queues.{OutboundMessage, LinkJob, BoundedQueue}
use palworld_pal_crosschat.WordFilter.{RegexLib, WordFilter}
use palworld_pal_crosschat.Webhook.{WebhookWorker}
use palworld_pal_crosschat.ChatInject.{ChatInject}
use palworld_pal_crosschat.Audience.Defs.{AudienceTracker}

pub record PendingSetDiscord : Type 0 where
  pub controller : Option ℕ
  pub connect_code : Bytes

pub record PendingChatRelay : Type 0 where
  pub controller : Option ℕ
  pub message : Bytes
  pub guild_name : Bytes
  pub sender_id : Bytes
  pub sender_uid : Guid
  pub category : ℕ
  pub local_tag : Bool

pub record LinkClient : Type 0 where
  pub controller : Option ℕ
  pub player_uid : Guid

pub record ChatCapture (lib : RegexLib) : Type 0 where
  pub pending_setdiscord : List PendingSetDiscord
  pub pending_chat_relays : List PendingChatRelay
  pub link_clients : List (Bytes × LinkClient)
  pub platform_by_player_uid : List (Bytes × Bytes)
  pub name_by_player_uid : List (Bytes × Bytes)
  pub outbound : BoundedQueue OutboundMessage
  pub link_jobs : BoundedQueue LinkJob
  pub webhook : Option WebhookWorker
  pub filter : Option (WordFilter lib)
  pub inject : Option ChatInject
  pub audience : Option AudienceTracker

-- A call through a pointer, where it is not null.
abbrev pub through {ℓ} : {A : Type ℓ} → (A → A) → Option A → Option A
through f none = none
through f (some x) = some (f x)

abbrev pub handle_of : Option Controller → Option ℕ
handle_of none = none
handle_of (some c) = some c.handle

abbrev pub address_of : Option PlayerState → Option ℕ
address_of none = none
address_of (some p) = some p.address

abbrev pub unknown : Bytes
unknown = codes "Unknown"

-- The text of an id that was read, and the empty text for the nil id of a read that failed.
abbrev pub key_of : Guid → Bytes
key_of uid = if guid_eq uid nil_guid then [] else format_guid uid

module _ {lib : RegexLib} where
  unfoldable pub lookup_cached_player_name : ChatCapture lib → Bytes → Bytes
  lookup_cached_player_name c uid_key =
      if is_empty uid_key
      then []
      else elim (lookup uid_key c.name_by_player_uid) [ none ↦ [] | some name ↦ name ]

  unfoldable pub cache_player_name : ChatCapture lib → Bytes → Bytes → ChatCapture lib
  cache_player_name c uid_key name =
      if is_empty uid_key || is_empty name || str_eq name unknown
      then c
      else record c { name_by_player_uid = insert uid_key name c.name_by_player_uid }

abbrev pub max_pending_setdiscord : ℕ
max_pending_setdiscord = 32

abbrev pub max_pending_relays : ℕ
max_pending_relays = 64

-- ===== src/ChatCapture/Deferred.antt =====
-- What `ChatCapture` does on the game thread's update: the !setdiscord commands, the relays that wait
-- for a name, and the answers to link jobs. No call in either loop adds to the deque that it empties,
-- so each loop runs over the deque once. What a weak pointer to a controller gives is `controllers`.
use palworld_pal_crosschat.Base.{
  ℕ, not, ◌||◌, Option, none, some, List, [], ◌∷◌, if◌then◌else◌, is_empty, Bytes, lookup, insert,
  erase,
}
use palworld_pal_crosschat.Guid.{Guid, nil_guid, guid_eq}
use palworld_pal_crosschat.Engine.{
  Controller, PlayerState, WeakGet, safe_weak_get, get_player_state, read_player_uid,
  resolve_player_name,
}
use palworld_pal_crosschat.Queues.{push, LinkResult}
use palworld_pal_crosschat.PlatformId.{resolve_platform_user_id}
use palworld_pal_crosschat.Sanitize.{sanitize_message}
use palworld_pal_crosschat.WordFilter.{RegexLib}
use palworld_pal_crosschat.ChatInject.{
  ChatInject, enqueue_private_chat, enqueue_screen_log, enqueue_local_tagged,
}
use palworld_pal_crosschat.Audience.Defs.{AudienceTracker, upsert}
use palworld_pal_crosschat.ChatCapture.Text.{split_platform_user_id}
use palworld_pal_crosschat.ChatCapture.State.{
  PendingSetDiscord, PendingChatRelay, LinkClient, ChatCapture, through, handle_of, address_of,
  unknown, key_of, lookup_cached_player_name, cache_player_name,
}

-- The client that the map held, which the delivery takes out.
abbrev pub answer : Option LinkClient → Bytes → (ℕ → WeakGet Controller) → ChatInject → ChatInject
answer none notice controllers inject = inject
answer (some client) notice controllers inject =
    if not (guid_eq client.player_uid nil_guid)
    then enqueue_private_chat inject client.player_uid notice
    else enqueue_screen_log inject (handle_of (safe_weak_get controllers client.controller).0)
        notice

abbrev pub name_or_unknown : Bytes → Bytes
name_or_unknown name = if is_empty name then unknown else name

abbrev pub upsert_linked : Option AudienceTracker → Guid → Bytes → Option ℕ → Option AudienceTracker
upsert_linked audience uid platform state =
    if guid_eq uid nil_guid then audience else through (λ a. upsert a uid platform state) audience

module _ {lib : RegexLib} where
  unfoldable pub cached_platform : ChatCapture lib → Bytes → Bytes
  cached_platform c uid_key =
      if is_empty uid_key
      then []
      else elim (lookup uid_key c.platform_by_player_uid) [ none ↦ [] | some platform ↦ platform ]

  -- The id from the cache, or resolved and then cached.
  unfoldable pub platform_of :
      ChatCapture lib → Bytes → Option PlayerState → Bytes × ChatCapture lib
  unfolding cached_platform
  platform_of c uid_key state =
      let cached = cached_platform c uid_key in
      if not (is_empty cached)
      then (cached, c)
      else (let resolved = resolve_platform_user_id state in
          if is_empty resolved || is_empty uid_key then (resolved, c) else (
            resolved,
            record c { platform_by_player_uid = insert uid_key resolved c.platform_by_player_uid },
          ))

  -- The link job, for an id that has both its parts.
  unfoldable pub queue_link_job :
      ChatCapture lib
      → Option ℕ
      → Guid
      → Bytes
      → Bytes
      → Bytes
      → Option (Bytes × Bytes)
      → ChatCapture lib
  queue_link_job c controller uid connect_code sender_name platform_user_id none = c
  queue_link_job c controller uid connect_code sender_name platform_user_id
        (some (platform, user_id)) =
      record c {
        link_clients =
            insert platform_user_id (record { controller = controller; player_uid = uid })
              c.link_clients;
        link_jobs = push c.link_jobs (record {
          connect_code = sanitize_message connect_code 16;
          platform = platform;
          user_id = user_id;
          platform_user_id = platform_user_id;
          player_name = sender_name;
        });
      }

  unfoldable pub process_set_discord : ChatCapture lib → Option Controller → Bytes → ChatCapture lib
  unfolding platform_of queue_link_job
  process_set_discord c none connect_code = c
  process_set_discord c (some controller) connect_code =
      let state = controller.state in
      let sender_name = name_or_unknown (sanitize_message (resolve_player_name state) 64) in
      let uid = read_player_uid state in
      let uid_key = key_of uid in
      let (platform_user_id, c1) =
        platform_of (cache_player_name c uid_key sender_name) uid_key state in
      let c2 = record c1 {
        audience = upsert_linked c1.audience uid platform_user_id (address_of state);
      } in
      queue_link_job c2 (some controller.handle) uid connect_code sender_name platform_user_id
        (split_platform_user_id platform_user_id)

  unfoldable pub deliver_link_result :
      (ℕ → WeakGet Controller) → ChatCapture lib → LinkResult → ChatCapture lib
  deliver_link_result controllers c result =
      if is_empty result.notice || is_empty result.platform_user_id
      then c
      else (let client = lookup result.platform_user_id c.link_clients in
          record c {
            link_clients = erase result.platform_user_id c.link_clients;
            inject = through (answer client result.notice controllers) c.inject;
          })

  -- The name that the game gives now, the name that was cached, or "Unknown", which is not cached.
  unfoldable pub relay_name : ChatCapture lib → Bytes → Option PlayerState → Bytes × ChatCapture lib
  relay_name c id state =
      let own = sanitize_message (resolve_player_name state) 64 in
      let name = if is_empty own then lookup_cached_player_name c id else own in
      if is_empty name then (unknown, c) else (name, cache_player_name c id name)

  unfoldable pub relay_pending :
      (ℕ → WeakGet Controller) → ChatCapture lib → PendingChatRelay → ChatCapture lib
  unfolding relay_name
  relay_pending controllers c pending =
      let controller = (safe_weak_get controllers pending.controller).0 in
      let (name, c') = relay_name c pending.sender_id (get_player_state controller) in
      record c' {
        inject =
            if pending.local_tag
            then through
                (λ i.
                  enqueue_local_tagged i name pending.guild_name pending.message pending.category
                    pending.sender_uid)
                c'.inject
            else c'.inject;
        outbound = push c'.outbound (record {
          sender_name = name;
          sender_id = pending.sender_id;
          guild_name = pending.guild_name;
          message = pending.message;
        });
      }

  unfoldable pub relay_all :
      (ℕ → WeakGet Controller) → ChatCapture lib → List PendingChatRelay → ChatCapture lib
  unfolding relay_pending
  relay_all controllers c [] = c
  relay_all controllers c (pending ∷ items) =
      relay_all controllers (relay_pending controllers c pending) items

  unfoldable pub link_all :
      (ℕ → WeakGet Controller) → ChatCapture lib → List PendingSetDiscord → ChatCapture lib
  unfolding process_set_discord
  link_all controllers c [] = c
  link_all controllers c (pending ∷ items) =
      link_all controllers
        (process_set_discord c (safe_weak_get controllers pending.controller).0
          pending.connect_code)
        items

  unfoldable pub flush_pending_chat_relays :
      (ℕ → WeakGet Controller) → ChatCapture lib → ChatCapture lib
  unfolding relay_all
  flush_pending_chat_relays controllers c =
      relay_all controllers (record c { pending_chat_relays = [] }) c.pending_chat_relays

  unfoldable pub flush_deferred : (ℕ → WeakGet Controller) → ChatCapture lib → ChatCapture lib
  unfolding link_all flush_pending_chat_relays
  flush_deferred controllers c =
      flush_pending_chat_relays controllers
        (link_all controllers (record c { pending_setdiscord = [] }) c.pending_setdiscord)

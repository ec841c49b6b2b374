-- ===== src/PalCrosschat/Update.antt =====
-- An update: what waits is done, and what was said gets to the database.
use palworld_pal_crosschat.Base.{
  ℕ, ◌≡◌, refl, ap, ◌∙◌, subst, ◌||◌, Option, none, some, List, [], ◌∷◌, arith, if_both, is_empty,
  Bytes,
}
use palworld_pal_crosschat.Engine.{
  WeakGet, Controller, PlayerState, resolve_player_name, read_player_uid, safe_weak_get,
}
use palworld_pal_crosschat.Guid.{Guid}
use palworld_pal_crosschat.Sanitize.{sanitize_message}
use palworld_pal_crosschat.ChatCapture.Text.{split_platform_user_id}
use palworld_pal_crosschat.Config.Types.{Config}
use palworld_pal_crosschat.Queues.{
  push_all, InboundMessage, BoundedQueue, OutboundMessage, LinkResult,
}
use palworld_pal_crosschat.WordFilter.{RegexLib}
use palworld_pal_crosschat.ChatInject.{ChatInject}
use palworld_pal_crosschat.ChatInject.Game.{Game}
use palworld_pal_crosschat.ChatCapture.State.{
  ChatCapture, through, PendingSetDiscord, PendingChatRelay, key_of, address_of, cache_player_name,
}
use palworld_pal_crosschat.ChatCapture.Deferred.{
  platform_of, queue_link_job, process_set_discord, upsert_linked, name_or_unknown, relay_name,
  relay_pending, relay_all, link_all, flush_pending_chat_relays, flush_deferred,
  deliver_link_result,
}
use palworld_pal_crosschat.ChatCapture.Delivery.{CarriesEach, flush_pending_chat_relays_lem}
use palworld_pal_crosschat.Audience.Hooks.{tick}
use palworld_pal_crosschat.PalCrosschat.{Mod, deliver_from, deliver_results, drain_with, on_update}

module _ {lib : RegexLib} (controllers : ℕ → WeakGet Controller) where
  -- The parts of ChatCapture that a step does not change.
  abbrev IsUntouched : ChatCapture lib → ChatCapture lib → Type 0
  IsUntouched c d =
      (d.outbound ≡ c.outbound)
      × (d.pending_chat_relays ≡ c.pending_chat_relays)
      × (d.pending_setdiscord ≡ c.pending_setdiscord)

  trans-IsUntouched :
      (a b c : ChatCapture lib) → IsUntouched a b → IsUntouched b c → IsUntouched a c
  trans-IsUntouched a b c (e1, e2, e3) (f1, f2, f3) = (f1 ∙ e1, f2 ∙ e2, f3 ∙ e3)

  deliver_link_result-IsUntouched :
      (c : ChatCapture lib) (result : LinkResult)
      → IsUntouched c (deliver_link_result controllers c result)
  unfolding deliver_link_result
  deliver_link_result-IsUntouched c result =
      if_both (IsUntouched c) (is_empty result.notice || is_empty result.platform_user_id) c _
        (refl, refl, refl) (refl, refl, refl)

  deliver_from-empty :
      (results : List LinkResult) (q : BoundedQueue LinkResult) (c : ChatCapture lib)
      → q.deque ≡ results
      → ((deliver_from controllers results q c).1.deque ≡ [])
        × IsUntouched c (deliver_from controllers results q c).0
  unfolding deliver_from
  deliver_from-empty [] q c e = (e, (refl, refl, refl))
  deliver_from-empty (result ∷ results) q c e =
      let next = deliver_link_result controllers c result in
      let (gone_all, same) = deliver_from-empty results (record q { deque = results }) next refl in
      (
        gone_all,
        trans-IsUntouched c next
            (deliver_from controllers results (record q { deque = results }) next).0
            (deliver_link_result-IsUntouched c result) same,
      )

  cache_player_name-IsUntouched :
      (c : ChatCapture lib) (key name : Bytes) → IsUntouched c (cache_player_name c key name)
  unfolding cache_player_name
  cache_player_name-IsUntouched c key name =
      if_both (IsUntouched c) _ c _ (refl, refl, refl) (refl, refl, refl)

  platform_of-IsUntouched :
      (c : ChatCapture lib) (key : Bytes) (state : Option PlayerState)
      → IsUntouched c (platform_of c key state).1
  unfolding platform_of
  platform_of-IsUntouched c key state = ground arith

  queue_link_job-IsUntouched :
      (c : ChatCapture lib) (controller : Option ℕ) (uid : Guid) (code name id : Bytes)
      (parts : Option (Bytes × Bytes))
      → IsUntouched c (queue_link_job c controller uid code name id parts)
  unfolding queue_link_job
  queue_link_job-IsUntouched c controller uid code name id none = (refl, refl, refl)
  queue_link_job-IsUntouched c controller uid code name id (some (a, b)) = (refl, refl, refl)

  process_set_discord-IsUntouched :
      (c : ChatCapture lib) (controller : Option Controller) (code : Bytes)
      → IsUntouched c (process_set_discord c controller code)
  unfolding process_set_discord
  process_set_discord-IsUntouched c none code = (refl, refl, refl)
  process_set_discord-IsUntouched c (some controller) code =
      let state = controller.state in
      let sender_name = name_or_unknown (sanitize_message (resolve_player_name state) 64) in
      let uid = read_player_uid state in
      let named = cache_player_name c (key_of uid) sender_name in
      let (platform_user_id, c1) = platform_of named (key_of uid) state in
      let c2 = record c1 {
        audience = upsert_linked c1.audience uid platform_user_id (address_of state);
      } in
      let c3 =
        queue_link_job c2 (some controller.handle) uid code sender_name platform_user_id
          (split_platform_user_id platform_user_id) in
      trans-IsUntouched c named c3 (cache_player_name-IsUntouched c (key_of uid) sender_name) (
        trans-IsUntouched named c1 c3 (platform_of-IsUntouched named (key_of uid) state) (
          queue_link_job-IsUntouched c2 (some controller.handle) uid code sender_name
            platform_user_id (split_platform_user_id platform_user_id)))

  link_all-IsUntouched :
      (c : ChatCapture lib) (items : List PendingSetDiscord)
      → IsUntouched c (link_all controllers c items)
  unfolding link_all
  link_all-IsUntouched c [] = (refl, refl, refl)
  link_all-IsUntouched c (pending ∷ items) =
      let next =
        process_set_discord c (safe_weak_get controllers pending.controller).0
          pending.connect_code in
      trans-IsUntouched c next (link_all controllers next items)
        (process_set_discord-IsUntouched c (safe_weak_get controllers pending.controller).0
          pending.connect_code)
        (link_all-IsUntouched next items)

  -- Relaying leaves the link requests alone.
  relay_pending_keeps :
      (c : ChatCapture lib) (pending : PendingChatRelay)
      → (relay_pending controllers c pending).pending_setdiscord ≡ c.pending_setdiscord
  unfolding relay_pending relay_name cache_player_name
  relay_pending_keeps c pending = ground arith

  relay_all_keeps :
      (c : ChatCapture lib) (items : List PendingChatRelay)
      → (relay_all controllers c items).pending_setdiscord ≡ c.pending_setdiscord
  unfolding relay_all
  relay_all_keeps c [] = refl
  relay_all_keeps c (pending ∷ items) =
      relay_all_keeps (relay_pending controllers c pending) items ∙ relay_pending_keeps c pending

  -- What is done behind a flush: nothing waits, and each relay became an outbound message.
  abbrev pub IsFlushed : ChatCapture lib → ChatCapture lib → Type 0
  IsFlushed c d =
      (d.pending_setdiscord ≡ [])
      × (d.pending_chat_relays ≡ [])
      × ((ms : List OutboundMessage) × (d.outbound ≡ push_all c.outbound ms)
          × CarriesEach c.pending_chat_relays ms)

  flush_deferred-IsFlushed : (c : ChatCapture lib) → IsFlushed c (flush_deferred controllers c)
  unfolding flush_deferred flush_pending_chat_relays
  flush_deferred-IsFlushed c =
      let begun = record c { pending_setdiscord = [] } in
      let linked = link_all controllers begun c.pending_setdiscord in
      let (e1, e2, e3) = link_all-IsUntouched begun c.pending_setdiscord in
      let (empty, (ms, pushed, carries)) = flush_pending_chat_relays_lem controllers linked in
      (
        relay_all_keeps (record linked { pending_chat_relays = [] }) linked.pending_chat_relays
            ∙ e3,
        empty,
        (ms, pushed ∙ ap (λ q. push_all q ms) e1, subst (λ items. CarriesEach items ms) e2 carries),
      )

  untouched-IsFlushed : (c d e : ChatCapture lib) → IsFlushed c d → IsUntouched d e → IsFlushed c e
  untouched-IsFlushed c d e (none1, none2, (ms, pushed, carries)) (e1, e2, e3) =
      (e3 ∙ none1, e2 ∙ none2, (ms, e1 ∙ pushed, carries))

  drain_with_keeps :
      (game : Game) (config : Config) (now : ℕ) (arrivals : ℕ → List InboundMessage)
      (chat : Option ChatInject) (m : Mod lib game)
      → IsUntouched m.capture (drain_with lib game config now arrivals chat m).capture
        × ((drain_with lib game config now arrivals chat m).link_results ≡ m.link_results)
  unfolding drain_with
  drain_with_keeps game config now arrivals none m = ((refl, refl, refl), refl)
  drain_with_keeps game config now arrivals (some chat) m = ((refl, refl, refl), refl)

pub on_update-IsFlushed :
    (lib : RegexLib) (game : Game) (config : Config) (now : ℕ) (arrivals : ℕ → List InboundMessage)
    (controllers : ℕ → WeakGet Controller) (m : Mod lib game)
    → IsFlushed controllers m.capture (on_update lib game config now arrivals controllers m).capture
      × ((on_update lib game config now arrivals controllers m).link_results.deque ≡ [])
unfolding on_update deliver_results
on_update-IsFlushed lib game config now arrivals controllers m =
    let flushed = flush_deferred controllers m.capture in
    let ticked = record m {
      capture = record flushed {
        audience = through (λ t. tick (game.weak_states m.world) t) flushed.audience;
      };
    } in
    let delivered = deliver_results lib game controllers ticked in
    let (gone_all, same) =
      deliver_from-empty controllers m.link_results.deque m.link_results ticked.capture refl in
    let (kept, results) =
      drain_with_keeps controllers game config now arrivals delivered.capture.inject delivered in
    (
      untouched-IsFlushed controllers m.capture delivered.capture
          (drain_with lib game config now arrivals delivered.capture.inject delivered).capture
          (untouched-IsFlushed controllers m.capture flushed delivered.capture
            (flush_deferred-IsFlushed controllers m.capture) same)
          kept,
      ap (λ q. q.deque) results ∙ gone_all,
    )

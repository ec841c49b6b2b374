-- ===== src/ChatCapture/Delivery.antt =====
-- What the deferred work of `ChatCapture` delivers.
use palworld_pal_crosschat.Base.{
  ℕ, ◌≡◌, refl, ap, ◌∙◌, ◌≢◌, inl, inr, false, ◌||◌, Option, none, some, List, [], ◌∷◌, arith,
  if◌then◌else◌, Bool-cases, if_both, is_empty, Bytes, str_eq, str_eq_refl, lookup, erase,
  lookup-erase,
}
use palworld_pal_crosschat.Engine.{
  Controller, PlayerState, WeakGet, safe_weak_get, get_player_state, resolve_player_name,
}
use palworld_pal_crosschat.Queues.{push_all, push, OutboundMessage, LinkResult}
use palworld_pal_crosschat.WordFilter.{RegexLib}
use palworld_pal_crosschat.Sanitize.{sanitize_message}
use palworld_pal_crosschat.ChatInject.{ChatInject}
use palworld_pal_crosschat.ChatCapture.State.{
  PendingChatRelay, ChatCapture, through, unknown, cache_player_name, lookup_cached_player_name,
}
use palworld_pal_crosschat.ChatCapture.Deferred.{
  answer, deliver_link_result, relay_name, relay_pending, relay_all, flush_pending_chat_relays,
}

-- A message carries the pending relay's text, guild and id, and a name that is not empty.
abbrev pub Carries : PendingChatRelay → OutboundMessage → Type 0
Carries p m =
    (m.message ≡ p.message)
    × (m.guild_name ≡ p.guild_name)
    × (m.sender_id ≡ p.sender_id)
    × (is_empty m.sender_name ≡ false)

abbrev pub CarriesEach : List PendingChatRelay → List OutboundMessage → Type 0
CarriesEach [] [] = Unit
CarriesEach [] (m ∷ ms) = ⊥
CarriesEach (p ∷ ps) [] = ⊥
CarriesEach (p ∷ ps) (m ∷ ms) = Carries p m × CarriesEach ps ms

cache-outbound :
    {lib : RegexLib} (c : ChatCapture lib) (key name : Bytes)
    → ((cache_player_name c key name).outbound ≡ c.outbound)
      × ((cache_player_name c key name).pending_chat_relays ≡ c.pending_chat_relays)
unfolding cache_player_name
cache-outbound c key name =
    if_both
      (λ (d : ChatCapture _).
        (d.outbound ≡ c.outbound) × (d.pending_chat_relays ≡ c.pending_chat_relays))
      (is_empty key || is_empty name || str_eq name unknown) _ _ (refl, refl) (refl, refl)

relay_name_lem :
    {lib : RegexLib} (c : ChatCapture lib) (id : Bytes) (state : Option PlayerState)
    → ((relay_name c id state).1.outbound ≡ c.outbound)
      × ((relay_name c id state).1.pending_chat_relays ≡ c.pending_chat_relays)
      × (is_empty (relay_name c id state).0 ≡ false)
unfolding relay_name
relay_name_lem c id state =
    let own = sanitize_message (resolve_player_name state) 64 in
    let name : Bytes = if is_empty own then lookup_cached_player_name c id else own in
    elim (Bool-cases (is_empty name)) [
      | inl e ↦ rw e (refl, refl, refl)
      | inr e ↦ rw e ((cache-outbound c id name).0, (cache-outbound c id name).1, e)
    ]

nobody :
    (controllers : ℕ → WeakGet Controller) (notice : Bytes) (inject : Option ChatInject)
    → through (answer none notice controllers) inject ≡ inject
nobody controllers notice none = refl
nobody controllers notice (some i) = refl

module _ {lib : RegexLib} (controllers : ℕ → WeakGet Controller) where
  relayed :
      (c : ChatCapture lib) (p : PendingChatRelay)
      → (m : OutboundMessage) × ((relay_pending controllers c p).outbound ≡ push c.outbound m)
        × Carries p m
  unfolding relay_pending relay_name
  relayed c p =
      let v =
        relay_name_lem c p.sender_id
          (get_player_state (safe_weak_get controllers p.controller).0) in
      let m : OutboundMessage = record {
        sender_name =
            (relay_name c p.sender_id
              (get_player_state (safe_weak_get controllers p.controller).0)).0;
        sender_id = p.sender_id;
        guild_name = p.guild_name;
        message = p.message;
      } in
      (m, ap (λ q. push q m) v.0, (refl, refl, refl, v.2))

  relayed_all :
      (c : ChatCapture lib) (items : List PendingChatRelay)
      → (ms : List OutboundMessage) × ((relay_all controllers c items).outbound
          ≡ push_all c.outbound ms)
        × CarriesEach items ms
  unfolding relay_all
  relayed_all c [] = ([], refl, tt)
  relayed_all c (p ∷ items) =
      let (m, e, v) = relayed c p in
      let (ms, f, w) = relayed_all (relay_pending controllers c p) items in
      (m ∷ ms, f ∙ ap (λ q. push_all q ms) e, (v, w))

  still_empty :
      (c : ChatCapture lib) (items : List PendingChatRelay)
      → c.pending_chat_relays ≡ []
      → (relay_all controllers c items).pending_chat_relays ≡ []
  unfolding relay_all
  still_empty c [] h = h
  still_empty c (p ∷ items) h = still_empty (relay_pending controllers c p) items (keeps c p ∙ h)
    where
      keeps :
          (d : ChatCapture lib) (q : PendingChatRelay)
          → (relay_pending controllers d q).pending_chat_relays ≡ d.pending_chat_relays
      keeps d q =
          unfold relay_pending in
          (relay_name_lem d q.sender_id
            (get_player_state (safe_weak_get controllers q.controller).0)).1

  -- Flushing the relays that wait leaves none waiting, and pushes one message for each to the outbound
  -- queue, in their order: with the relay's text, guild and id, and a name that is not empty.
  pub flush_pending_chat_relays_lem :
      (c : ChatCapture lib)
      → ((flush_pending_chat_relays controllers c).pending_chat_relays ≡ [])
        × ((ms : List OutboundMessage) × ((flush_pending_chat_relays controllers c).outbound
              ≡ push_all c.outbound ms)
            × CarriesEach c.pending_chat_relays ms)
  unfolding flush_pending_chat_relays
  flush_pending_chat_relays_lem c = (
    still_empty (record c { pending_chat_relays = [] }) c.pending_chat_relays refl,
    relayed_all (record c { pending_chat_relays = [] }) c.pending_chat_relays,
  )

  -- A link result is delivered once: a second result for the same platform id finds no client, so it
  -- puts nothing more into the queue of deferred actions.
  deliver_link_result_once :
      (c : ChatCapture lib) (first second : LinkResult)
      → first.platform_user_id ≡ second.platform_user_id
      → first.notice ≢ []
      → (deliver_link_result controllers (deliver_link_result controllers c first) second).inject
        ≡ (deliver_link_result controllers c first).inject
  unfolding deliver_link_result
  deliver_link_result_once c first second h n =
      elim (Bool-cases (is_empty second.notice || is_empty second.platform_user_id)) [
        | inl e ↦ rw e refl
        | inr e ↦
            let guard : is_empty first.notice || is_empty first.platform_user_id ≡ false =
              rw (h, filled first.notice n) (ground arith) in
            let absent : lookup second.platform_user_id
                  (erase first.platform_user_id c.link_clients)
                ≡ none =
              rw
                (
                  lookup-erase first.platform_user_id second.platform_user_id c.link_clients,
                  h,
                  str_eq_refl second.platform_user_id,
                )
                refl in
            rw (e, guard, absent)
              (nobody controllers second.notice (
                through
                  (answer (lookup first.platform_user_id c.link_clients) first.notice controllers)
                  c.inject))
      ]
    where
      filled : (s : Bytes) → s ≢ [] → is_empty s ≡ false
      filled [] v = absurd (v refl)
      filled (x ∷ s) v = refl

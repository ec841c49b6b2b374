-- ===== src/ChatCapture/Bounds.antt =====
-- The bounds of the deques that the chat hook fills.
use palworld_pal_crosschat.Base.{
  ℕ, ◌≤◌, ◌<◌, inl, inr, not, ◌&&◌, ◌||◌, Option, none, some, List, [], ◌∷◌, arith, leb, ◌==◌,
  if◌then◌else◌, Bool-cases, Option-cases, is_some, if_both, length, is_empty, drop, length-append,
  length-drop, Bytes,
}
use palworld_pal_crosschat.Guid.{Guid, nil_guid, guid_eq}
use palworld_pal_crosschat.Config.Types.{Config}
use palworld_pal_crosschat.ChatApi.{chat_category_global, is_relayed_category}
use palworld_pal_crosschat.Sanitize.{sanitize_message, starts_with_any_prefix}
use palworld_pal_crosschat.WordFilter.{
  RegexLib, WordFilter, FilterHit, active, is_muted, find_match,
}
use palworld_pal_crosschat.ChatInject.{
  ChatInject, DeferredAction, push_bounded, defer, max_deferred_actions, enqueue_private_chat,
  enqueue_screen_log, enqueue_local_tagged,
}
use palworld_pal_crosschat.ChatCapture.Text.{try_parse_set_discord}
use palworld_pal_crosschat.ChatCapture.Hook.{HookContext, read_hook_params}
use palworld_pal_crosschat.ChatCapture.State.{
  ChatCapture, through, max_pending_setdiscord, max_pending_relays,
}
use palworld_pal_crosschat.ChatCapture.Stages.{
  Sender, HookClock, mute_key, banner_queue, show_mute_banner, accept_setdiscord, read_sender,
  upsert_sender, notify_muted, punish,
}
use palworld_pal_crosschat.ChatCapture.Handle.{
  is_command_line, loop_prefixes, relay, gate, filter_and_gate, handle_hook,
}

length-push_bounded :
    {A : Type 0} (limit : ℕ) (items : List A) (item : A)
    → 0 < limit
    → length items ≤ limit
    → length (push_bounded limit items item) ≤ limit
unfolding push_bounded
length-push_bounded limit items item p h = elim (Bool-cases (leb limit (length items))) [
  | inl e ↦
      rw (e, length-append (drop 1 items) (item ∷ []), length-drop 1 items) (omega (arith, p, h))
  | inr e ↦ rw (e, length-append items (item ∷ [])) (ground arith)
]

-- The deferred actions, where there is a `ChatInject`.
abbrev pub IsFitting : Option ChatInject → Type 0
IsFitting none = Unit
IsFitting (some i) = length i.deferred ≤ max_deferred_actions

defer-IsFitting :
    (i : ChatInject) (a : DeferredAction) → IsFitting (some i) → IsFitting (some (defer i a))
unfolding defer
defer-IsFitting i a h = length-push_bounded max_deferred_actions i.deferred a (omega arith) h

banner-IsFitting :
    (s : Sender) (banner : Bytes) (inject : Option ChatInject)
    → IsFitting inject
    → IsFitting (through (banner_queue s banner) inject)
banner-IsFitting s banner none h = tt
banner-IsFitting s banner (some i) h = logged s.controller _ told
  where
    told :
        IsFitting (some (if guid_eq s.uid nil_guid then i else enqueue_private_chat i s.uid banner))
    told =
        unfold enqueue_private_chat in
        if_both (λ (j : ChatInject). IsFitting (some j)) (guid_eq s.uid nil_guid) _ _ h
          (if_both (λ (j : ChatInject). IsFitting (some j))
            (guid_eq s.uid nil_guid || is_empty banner) _ _ h (defer-IsFitting i _ h))

    logged :
        (controller : Option ℕ) (j : ChatInject)
        → IsFitting (some j)
        → IsFitting (some (enqueue_screen_log j controller banner))
    logged none j k = unfold enqueue_screen_log in k
    logged (some handle) j k = unfold enqueue_screen_log in defer-IsFitting j _ k

tagged-IsFitting :
    (name guild message : Bytes) (category : ℕ) (uid : Guid) (inject : Option ChatInject)
    → IsFitting inject
    → IsFitting (through (λ i. enqueue_local_tagged i name guild message category uid) inject)
tagged-IsFitting name guild message category uid none h = tt
tagged-IsFitting name guild message category uid (some i) h =
    unfold enqueue_local_tagged in defer-IsFitting i _ h

module _ {lib : RegexLib} where
  -- At most 32 link commands and 64 relays wait, and at most 64 actions are deferred.
  abbrev pub IsBounded : ChatCapture lib → Type 0
  IsBounded c =
      (length c.pending_setdiscord ≤ max_pending_setdiscord)
      × (length c.pending_chat_relays ≤ max_pending_relays)
      × IsFitting c.inject

  relay-IsBounded :
      (config : Config) (c : ChatCapture lib) (context : HookContext) (s : Sender) (message : Bytes)
      (category : ℕ)
      → IsBounded c
      → IsBounded (relay config c context s message category).0
  unfolding relay
  relay-IsBounded config c context s message category h =
      if_both (λ (r : ChatCapture lib × HookContext). IsBounded r.0) (is_empty s.name) _ _
        (h.0, length-push_bounded max_pending_relays c.pending_chat_relays _ (omega arith) h.1, h.2)
        (
          h.0,
          h.1,
          if_both IsFitting
              (config.show_local_server_tag && is_some c.inject && category == chat_category_global)
              _ _ (tagged-IsFitting s.name _ message category s.uid c.inject h.2) h.2,
        )

  gate-IsBounded :
      (config : Config) (c : ChatCapture lib) (context : HookContext) (s : Sender) (message : Bytes)
      (category : ℕ)
      → IsBounded c
      → IsBounded (gate config c context s message category).0
  unfolding gate
  gate-IsBounded config c context s message category h =
      let Bounded = λ (r : ChatCapture lib × HookContext). IsBounded r.0 in
      if_both Bounded (is_command_line message) _ _ h (
        if_both Bounded (not (is_relayed_category category)) _ _ h (
          if_both Bounded (starts_with_any_prefix message (loop_prefixes config)) _ _ h
            (relay-IsBounded config c context s message category h)))

  notify_muted-IsBounded :
      (c : ChatCapture lib) (f : WordFilter lib) (s : Sender) (clock : HookClock)
      → IsBounded c
      → IsBounded (notify_muted c f s clock)
  unfolding notify_muted show_mute_banner
  notify_muted-IsBounded c f s clock h =
      if_both IsBounded _ _ _ (h.0, h.1, banner-IsFitting s _ c.inject h.2) h

  punish-IsBounded :
      (config : Config) (c : ChatCapture lib) (f : WordFilter lib) (s : Sender) (hit : FilterHit)
      (message : Bytes) (now : ℕ)
      → IsBounded c
      → IsBounded (punish config c f s hit message now)
  unfolding punish show_mute_banner
  punish-IsBounded config c f s hit message now h =
      let shown = banner-IsFitting s _ c.inject h.2 in
      if_both IsBounded _ _ _ (h.0, h.1, shown) (h.0, h.1, shown)

  filter_and_gate-IsBounded :
      (config : Config) (c : ChatCapture lib) (context : HookContext) (s : Sender) (message : Bytes)
      (category : ℕ) (clock : HookClock) (filter : Option (WordFilter lib))
      → IsBounded c
      → IsBounded (filter_and_gate config c context s message category clock filter).0
  unfolding filter_and_gate
  filter_and_gate-IsBounded config c context s message category clock none h =
      gate-IsBounded config c context s message category h
  filter_and_gate-IsBounded config c context s message category clock (some f) h =
      let f' = (is_muted lib f (mute_key s) clock.checked).1 in
      elim (Bool-cases (active lib f)) [
        | inr a ↦ rw a (gate-IsBounded config c context s message category h)
        | inl a ↦ elim (Bool-cases (is_muted lib f (mute_key s) clock.checked).0) [
          | inl m ↦ rw (a, m) (notify_muted-IsBounded c f' s clock h)
          | inr m ↦ elim (Option-cases (find_match lib f' message)) [
            | inl e ↦
                rw (a, m, e)
                  (gate-IsBounded config (record c { filter = some f' }) context s message category
                    h)
            | inr (hit, e) ↦ rw (a, m, e) (punish-IsBounded config c f' s hit message clock.muted h)
          ]
        ]
      ]

  -- Whatever the line and the engine's answers, the hook keeps its three deques within their limits:
  -- at most 32 link commands and 64 relays wait, and at most 64 actions are deferred, if it was so
  -- before.
  pub handle_hook-IsBounded :
      (reencode : Bytes → Bytes) (config : Config) (clock : HookClock) (c : ChatCapture lib)
      (context : HookContext)
      → IsBounded c
      → IsBounded (handle_hook reencode config clock c context).0
  unfolding handle_hook
  handle_hook-IsBounded reencode config clock c context h =
      let read = read_hook_params reencode context in
      let message = sanitize_message read.0 512 in
      let s = read_sender c context.controller in
      elim (Bool-cases (is_empty message)) [
        | inl e ↦ rw e h
        | inr e ↦ elim (Option-cases (try_parse_set_discord message)) [
          | inr (code, found) ↦
              rw (e, found)
                (unfold accept_setdiscord in
                  (
                    length-push_bounded max_pending_setdiscord c.pending_setdiscord _ (omega arith)
                        h.0,
                    h.1,
                    h.2,
                  ))
          | inl n ↦
              rw (e, n)
                (filter_and_gate-IsBounded config
                  (record c { audience = upsert_sender c.audience s }) context s message read.1
                  clock c.filter h)
        ]
      ]

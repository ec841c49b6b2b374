-- ===== src/ChatCapture/Quiet.antt =====
-- The lines that leave the queues to the database and to Discord as they are.
use palworld_pal_crosschat.Base.{
  ℕ, ◌≡◌, refl, inl, inr, Bool, true, false, not, ◌&&◌, ◌||◌, Option, none, some, arith, leb,
  Bool-cases, Option-cases, is_some, if_both, is_empty, Bytes, lookup,
}
use palworld_pal_crosschat.Config.Types.{Config}
use palworld_pal_crosschat.ChatApi.{is_relayed_category}
use palworld_pal_crosschat.Sanitize.{starts_with_any_prefix}
use palworld_pal_crosschat.WordFilter.{
  RegexLib, WordFilter, FilterHit, MuteEntry, find_active_mute, live_entry, active, is_muted,
  find_match,
}
use palworld_pal_crosschat.ChatCapture.Hook.{HookContext}
use palworld_pal_crosschat.ChatCapture.State.{ChatCapture}
use palworld_pal_crosschat.ChatCapture.Stages.{
  Sender, HookClock, mute_key, notify_muted, punish, show_mute_banner,
}
use palworld_pal_crosschat.ChatCapture.Handle.{
  is_command_line, loop_prefixes, relay, gate, filter_and_gate,
}

-- A line that is no command, is in a relayed category and does not carry a server's prefix.
abbrev pub is_public : Config → Bytes → ℕ → Bool
is_public config message category =
    not (is_command_line message)
    && is_relayed_category category
    && not (starts_with_any_prefix message (loop_prefixes config))

module _ {lib : RegexLib} where
  -- The filter stops the line: its sender is muted, or a pattern matches it.
  abbrev pub filter_stops : Option (WordFilter lib) → Bytes → Bytes → ℕ → Bool
  filter_stops none key message now = false
  filter_stops (some f) key message now =
      active lib f && ((is_muted lib f key now).0 || is_some (find_match lib f message))

  -- Neither queue has changed.
  abbrev pub IsQuiet : ChatCapture lib → ChatCapture lib → Type 0
  IsQuiet c d = (d.outbound ≡ c.outbound) × (d.pending_chat_relays ≡ c.pending_chat_relays)

  pub gate-IsQuiet :
      (config : Config) (c : ChatCapture lib) (context : HookContext) (s : Sender) (message : Bytes)
      (category : ℕ)
      → is_public config message category ≡ false
      → IsQuiet c (gate config c context s message category).0
  unfolding gate
  gate-IsQuiet config c context s message category h = elim (Bool-cases (is_command_line message)) [
    | inl e ↦ rw e (refl, refl)
    | inr e ↦ elim (Bool-cases (is_relayed_category category)) [
      | inr k ↦ rw (e, k) (refl, refl)
      | inl k ↦ elim (Bool-cases (starts_with_any_prefix message (loop_prefixes config))) [
        | inl p ↦ rw (e, k, p) (refl, refl)
        | inr p ↦ absurd (ground arith)
      ]
    ]
  ]

  pub gate-relay :
      (config : Config) (c : ChatCapture lib) (context : HookContext) (s : Sender) (message : Bytes)
      (category : ℕ)
      → is_public config message category ≡ true
      → gate config c context s message category ≡ relay config c context s message category
  unfolding gate
  gate-relay config c context s message category h = ground arith

  notify_muted-IsQuiet :
      (c : ChatCapture lib) (f : WordFilter lib) (s : Sender) (clock : HookClock)
      → IsQuiet c (notify_muted c f s clock)
  unfolding notify_muted show_mute_banner
  notify_muted-IsQuiet c f s clock = if_both (IsQuiet c) _ _ _ (refl, refl) (refl, refl)

  punish-IsQuiet :
      (config : Config) (c : ChatCapture lib) (f : WordFilter lib) (s : Sender) (hit : FilterHit)
      (message : Bytes) (now : ℕ)
      → IsQuiet c (punish config c f s hit message now)
  unfolding punish show_mute_banner
  punish-IsQuiet config c f s hit message now = if_both (IsQuiet c) _ _ _ (refl, refl) (refl, refl)

  is_muted-patterns :
      (f : WordFilter lib) (key : Bytes) (now : ℕ)
      → (is_muted lib f key now).1.patterns ≡ f.patterns
  unfolding is_muted find_active_mute
  is_muted-patterns f key now = elim (Bool-cases (is_empty key)) [
    | inl e ↦ rw e refl
    | inr e ↦ elim (Option-cases (lookup key f.mutes)) [
      | inl n ↦ rw (e, n) (unfold live_entry in refl)
      | inr (entry, found) ↦
          rw (e, found)
            (unfold live_entry in
              if_both (λ (r : Option MuteEntry × WordFilter lib). r.1.patterns ≡ f.patterns)
                (leb entry.until now) _ _ refl refl)
    ]
  ]

  pub find_match-is_muted :
      (f : WordFilter lib) (key : Bytes) (now : ℕ) (message : Bytes)
      → find_match lib (is_muted lib f key now).1 message ≡ find_match lib f message
  unfolding find_match
  find_match-is_muted f key now message = let same = is_muted-patterns f key now in rw same refl

  pub filter_and_gate-IsQuiet :
      (config : Config) (c : ChatCapture lib) (context : HookContext) (s : Sender) (message : Bytes)
      (category : ℕ) (clock : HookClock) (filter : Option (WordFilter lib))
      → is_public config message category
          && not (filter_stops filter (mute_key s) message clock.checked)
        ≡ false
      → IsQuiet c (filter_and_gate config c context s message category clock filter).0
  unfolding filter_and_gate
  filter_and_gate-IsQuiet config c context s message category clock none h =
      gate-IsQuiet config c context s message category (ground arith)
  filter_and_gate-IsQuiet config c context s message category clock (some f) h =
      elim (Bool-cases (active lib f)) [
        | inr a ↦ rw a (gate-IsQuiet config c context s message category (ground arith))
        | inl a ↦ elim (Bool-cases (is_muted lib f (mute_key s) clock.checked).0) [
          | inl m ↦
              rw (a, m)
                (notify_muted-IsQuiet c (is_muted lib f (mute_key s) clock.checked).1 s clock)
          | inr m ↦ elim (Option-cases (find_match lib f message)) [
            | inl none_found ↦
                rw (a, m, find_match-is_muted f (mute_key s) clock.checked message, none_found)
                  (gate-IsQuiet config
                    (record c { filter = some (is_muted lib f (mute_key s) clock.checked).1 })
                    context s message category (ground arith))
            | inr (hit, found) ↦
                rw (a, m, find_match-is_muted f (mute_key s) clock.checked message, found)
                  (punish-IsQuiet config c (is_muted lib f (mute_key s) clock.checked).1 s hit
                    message clock.muted)
          ]
        ]
      ]

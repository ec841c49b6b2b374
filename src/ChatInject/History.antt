-- ===== src/ChatInject/History.antt =====
-- The circuit over whole ticks of ChatInject, and over histories of them.
use palworld_pal_crosschat.Base.{
  ℕ, zero, suc, ◌≡◌, refl, sym, ◌∙◌, Bool, true, false, not, ◌&&◌, Option, none, some, List, [],
  ◌∷◌, arith, if◌then◌else◌, is_some, if_both, option_both, is_empty, codes, ℤ, pos,
}
use palworld_pal_crosschat.Guid.{Guid}
use palworld_pal_crosschat.Engine.{safe_weak_get}
use palworld_pal_crosschat.Config.Types.{Config}
use palworld_pal_crosschat.Queues.{push_all, InboundMessage, BoundedQueue, push, try_pop}
use palworld_pal_crosschat.WordFilter.{RegexLib, WordFilter}
use palworld_pal_crosschat.Audience.Defs.{AudienceTracker}
use palworld_pal_crosschat.ChatInject.{
  ChatInject, new_inject, DeferredAction, DeferredKind, local_tagged, server_notice, screen_log,
  private_chat,
}
use palworld_pal_crosschat.ChatInject.Ready.{
  inject_limit, can_inject_now, resolve_game_state, find_game_state_seh,
}
use palworld_pal_crosschat.ChatInject.Game.{Game, Session}
use palworld_pal_crosschat.ChatInject.Display.{send_screen_log}
use palworld_pal_crosschat.ChatInject.Lines.{
  Line, groups, to_others, to_xbox, send_both, broadcast_dual, broadcast_local_tagged,
  broadcast_one, xbox_uid_of,
}
use palworld_pal_crosschat.ChatInject.Drain.{
  perform_kind, perform, flush_deferred_actions, after_line, show_popped, drain_inbound, can_inject,
  drain,
}
use palworld_pal_crosschat.ChatInject.Silence.{
  IsQuiet, Sound, SoundAfter, IsFrame, frame-Sound, chosen, chosen-opens,
}
use palworld_pal_crosschat.ChatInject.Quiet.{
  broadcast_display-Sound, show_server_notice-Sound, send_screen_log-Sound,
}

-- What happens to ChatInject: a call of `Drain` with the time, what the database thread pushes
-- meanwhile and the inbound queue of the moment, and
-- between the calls anything that the rest of the program and the game may do to the deferred actions,
-- to the audience and to the game itself.
pub data Tick (game : Game) : Type 0 where
  drains : ℕ → (ℕ → List InboundMessage) → BoundedQueue InboundMessage → Tick game
  turns : List DeferredAction → Option AudienceTracker → game.World → Tick game

list_both {ℓ κ} :
    {A : Type ℓ} {B : Type ℓ} (P : B → Type κ) (l : List A) (x : B) (f : A → List A → B)
    → P x
    → ((a : A) (rest : List A) → P (f a rest))
    → P (elim l [ [] ↦ x | a ∷ rest ↦ f a rest ])
list_both P [] x f h k = h
list_both P (a ∷ rest) x f h k = k a rest

bool_both {ℓ κ} :
    {B : Type ℓ} (P : B → Type κ) (b : Bool) (x y : B)
    → P x
    → P y
    → P (elim b [ false ↦ x | true ↦ y ])
bool_both P false x y h k = h
bool_both P true x y h k = k

inject_limit-circuit :
    (now : ℕ) (configured_max : ℤ) (i : ChatInject)
    → (inject_limit now configured_max i).1.inject_circuit_open ≡ i.inject_circuit_open
unfolding inject_limit
inject_limit-circuit now configured_max i = ground arith

module _ (game : Game) (lib : RegexLib) (config : Config) (filter : Option (WordFilter lib)) where
  unfoldable pub tick_step : Tick game → Session game → Session game
  tick_step (drains now arrivals inbound) s =
      (drain game config lib filter now arrivals inbound s).1
  tick_step (turns deferred audience world) s = record s {
    chat = record s.chat { deferred = deferred };
    audience = audience;
    world = world;
  }

  unfoldable pub run_ticks : List (Tick game) → Session game → Session game
  unfolding tick_step
  run_ticks [] s = s
  run_ticks (t ∷ ts) s = run_ticks ts (tick_step t s)

  to_xbox-Sound :
      (line : Line) (xbox : List Guid) (uid : Option Guid) (s : Session game)
      → Sound game s
      → SoundAfter game (to_xbox game line xbox uid s)
  unfolding to_xbox
  to_xbox-Sound line xbox none s sound = sound
  to_xbox-Sound line xbox (some uid) s sound =
      broadcast_display-Sound game line.xbox_sender line.xbox_message line.category xbox (some uid)
        s sound

  to_others-Sound :
      (line : Line) (others : List Guid) (s : Session game)
      → Sound game s
      → SoundAfter game (to_others game line others s)
  unfolding to_others
  to_others-Sound line others s sound =
      broadcast_display-Sound game line.formatted_sender line.formatted_message line.category others
        none s sound

  send_both-Sound :
      (line : Line) (xbox others : List Guid) (uid : Option Guid) (s : Session game)
      → Sound game s
      → SoundAfter game (send_both game line xbox others uid s)
  unfolding send_both
  send_both-Sound line xbox others uid s sound =
      let first : Bool × Session game =
        if not (is_empty others) then to_others game line others s else (true, s) in
      let first-Sound : SoundAfter game first =
        if_both (SoundAfter game) (not (is_empty others)) (to_others game line others s) (true, s)
          (to_others-Sound line others s sound) sound in
      if_both (SoundAfter game) (is_empty xbox && is_empty others) (true, s) _ sound
        (if_both (SoundAfter game) (is_empty xbox) (to_others game line others s) _
          (to_others-Sound line others s sound) (to_xbox-Sound line xbox uid first.1 first-Sound))

  groups-Sound : (s : Session game) → Sound game s → Sound game (groups game s).1
  unfolding groups
  groups-Sound s sound =
      option_both (λ (r : (List Guid × List Guid) × Session game). Sound game r.1) s.audience _ _
        sound (λ t. sound)

  broadcast_dual-Sound :
      (line : Line) (s : Session game) → Sound game s → SoundAfter game (broadcast_dual game line s)
  unfolding broadcast_dual
  broadcast_dual-Sound line s sound =
      let ((xbox, others), s1) = groups game s in
      send_both-Sound line xbox others (xbox_uid_of s1.audience line.sender_player_uid) s1
        (groups-Sound s sound)

  perform_kind-Sound :
      (kind : DeferredKind) (a : DeferredAction) (s : Session game)
      → Sound game s
      → Sound game (perform_kind game config kind a s)
  unfolding perform_kind broadcast_local_tagged
  perform_kind-Sound local_tagged a s sound =
      if_both (SoundAfter game) _ (false, s) _ sound (broadcast_dual-Sound _ s sound)
  perform_kind-Sound server_notice a s sound = show_server_notice-Sound game a.message s sound
  perform_kind-Sound screen_log a s sound =
      option_both (Sound game) (safe_weak_get (game.weak_get s.world) a.controller).0 s
        (λ controller. (send_screen_log game controller a.message s).1) sound
        (λ controller. send_screen_log-Sound game controller a.message s sound)
  perform_kind-Sound private_chat a s sound =
      if_both (Sound game) (is_empty a.receivers) s _ sound (
        broadcast_display-Sound game (codes "PalCrosschat") a.message a.category a.receivers none s
          sound)

  flush_deferred_actions-Sound :
      (n : ℕ) (s : Session game)
      → Sound game s
      → Sound game (flush_deferred_actions game config n s)
  unfolding flush_deferred_actions perform
  flush_deferred_actions-Sound zero s sound = sound
  flush_deferred_actions-Sound (suc n) s sound =
      list_both (Sound game) s.chat.deferred s
        (λ a actions.
          flush_deferred_actions game config n
            (perform game config a (record s { chat = record s.chat { deferred = actions } })))
        sound (λ a actions. flush_deferred_actions-Sound n _ (perform_kind-Sound a.kind a _ sound))

  broadcast_one-Sound :
      (msg : InboundMessage) (s : Session game)
      → Sound game s
      → SoundAfter game (broadcast_one game lib config filter msg s)
  unfolding broadcast_one
  broadcast_one-Sound msg s sound =
      if_both (SoundAfter game) _ (true, s) _ sound (broadcast_dual-Sound _ s sound)

  show_popped-Sound :
      (arrived : List InboundMessage) (r : Option InboundMessage × BoundedQueue InboundMessage)
      (s : Session game)
      → Sound game s
      → Sound game (show_popped game config lib filter arrived r s).1.1
  unfolding show_popped after_line
  show_popped-Sound arrived (none, inbound) s sound = sound
  show_popped-Sound arrived (some msg, inbound) s sound =
      let shown = broadcast_one game lib config filter msg s in
      let next = broadcast_one-Sound msg s sound in
      if_both (λ (r : Bool × (BoundedQueue InboundMessage × Session game)). Sound game r.1.1)
        shown.0 (true, (push_all inbound arrived, shown.1))
        (false, (push (push_all inbound arrived) msg, shown.1)) next next

  drain_inbound-Sound :
      (arrivals : ℕ → List InboundMessage) (n : ℕ) (inbound : BoundedQueue InboundMessage)
      (s : Session game)
      → Sound game s
      → Sound game (drain_inbound game config lib filter arrivals n inbound s).1
  unfolding drain_inbound
  drain_inbound-Sound arrivals zero inbound s sound = sound
  drain_inbound-Sound arrivals (suc n) inbound s sound =
      let (again, (rest, s1)) =
        show_popped game config lib filter (arrivals n) (try_pop inbound) s in
      let next = show_popped-Sound (arrivals n) (try_pop inbound) s sound in
      bool_both (λ (r : BoundedQueue InboundMessage × Session game). Sound game r.1) again
        (rest, s1) (drain_inbound game config lib filter arrivals n rest s1) next
        (drain_inbound-Sound arrivals n rest s1 next)

  can_inject-IsFrame :
      (now : ℕ) (s : Session game) → IsFrame game s (can_inject game config now s).1
  unfolding can_inject can_inject_now resolve_game_state
  can_inject-IsFrame now s =
      let get = game.weak_get s.world in
      let cached = (safe_weak_get get s.chat.game_state).0 in
      let resolved = chosen (find_game_state_seh (game.find_first_of s.world).0) s.chat cached in
      let opens = chosen-opens (find_game_state_seh (game.find_first_of s.world).0) s.chat cached in
      let P : (Bool × ℤ) × ChatInject → Type 0 =
        λ r. r.1.inject_circuit_open ≡ false → s.chat.inject_circuit_open ≡ false in
      (
        refl,
        if_both P s.chat.inject_circuit_open ((false, pos 0), s.chat) _ (λ e. e)
            (if_both P (not (is_some resolved.0)) ((false, pos 0), resolved.1)
              (inject_limit now config.max_broadcasts_per_tick resolved.1) opens
              (λ e.
                opens
                  (sym (inject_limit-circuit now config.max_broadcasts_per_tick resolved.1) ∙ e))),
      )

  drain-Sound :
      (now : ℕ) (arrivals : ℕ → List InboundMessage) (inbound : BoundedQueue InboundMessage)
      (s : Session game)
      → Sound game s
      → Sound game (drain game config lib filter now arrivals inbound s).1
  unfolding drain
  drain-Sound now arrivals inbound s sound =
      let s1 = (can_inject game config now s).1 in
      let sound1 = frame-Sound game s s1 (can_inject-IsFrame now s) sound in
      if_both (λ (r : BoundedQueue InboundMessage × Session game). Sound game r.1) _ (inbound, s1) _
        sound1 (drain_inbound-Sound arrivals _ inbound _ (flush_deferred_actions-Sound _ s1 sound1))

  run_ticks-Sound :
      (ts : List (Tick game)) (s : Session game) → Sound game s → Sound game (run_ticks ts s)
  unfolding run_ticks tick_step
  run_ticks-Sound [] s sound = sound
  run_ticks-Sound (drains now arrivals inbound ∷ ts) s sound =
      run_ticks-Sound ts _ (drain-Sound now arrivals inbound s sound)
  run_ticks-Sound (turns deferred audience world ∷ ts) s sound = run_ticks-Sound ts _ sound

-- Over every history of ticks from the start, whatever the hooks, the players and the game do between
-- them, at most one of ChatInject's calls of BroadcastChatMessage and BroadcastServerNotice faults, and it
-- is the last call of ProcessEvent that ChatInject makes; a fault of the screen log does not count.
pub run_ticks-IsQuiet :
    (game : Game) (lib : RegexLib) (config : Config) (filter : Option (WordFilter lib))
    (ts : List (Tick game)) (audience : Option AudienceTracker) (world : game.World)
    → IsQuiet
        (run_ticks game lib config filter ts
          (record { chat = new_inject; audience = audience; world = world; calls = [] })).calls
run_ticks-IsQuiet game lib config filter ts audience world =
    (run_ticks-Sound game lib config filter ts _ (λ _. tt, tt)).1

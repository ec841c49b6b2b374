-- ===== src/ChatInject/Drain.antt =====
-- FlushDeferred and Drain: what the update of a tick makes of the deferred actions and of the inbound
-- queue.
use palworld_pal_crosschat.Base.{
  ℕ, zero, suc, Bool, true, false, not, ◌&&◌, Option, none, some, List, [], ◌∷◌, if◌then◌else◌,
  is_some, is_empty, Bytes, codes, ℤ, pos, pos_part, ltb_ℤ,
}
use palworld_pal_crosschat.Engine.{safe_weak_get}
use palworld_pal_crosschat.Exceptions.{returned, thrown, ExceptionLog, catch_all}
use palworld_pal_crosschat.Config.Types.{Config}
use palworld_pal_crosschat.Queues.{InboundMessage, BoundedQueue, push, push_all, try_pop}
use palworld_pal_crosschat.WordFilter.{RegexLib, WordFilter}
use palworld_pal_crosschat.ChatInject.{
  DeferredAction, DeferredKind, local_tagged, server_notice, screen_log, private_chat,
}
use palworld_pal_crosschat.ChatInject.Ready.{can_inject_now}
use palworld_pal_crosschat.ChatInject.Game.{Game, Session}
use palworld_pal_crosschat.ChatInject.Display.{
  broadcast_display, show_server_notice, send_screen_log,
}
use palworld_pal_crosschat.ChatInject.Lines.{broadcast_local_tagged, broadcast_one}

module _ (game : Game) (config : Config) where
  -- What one action does; its result is not used.
  unfoldable pub perform_kind : DeferredKind → DeferredAction → Session game → Session game
  unfolding broadcast_local_tagged show_server_notice send_screen_log broadcast_display
  perform_kind local_tagged a s =
      (broadcast_local_tagged game config a.sender_name a.guild_name a.message a.category
        a.sender_uid s).1
  perform_kind server_notice a s = (show_server_notice game a.message s).1
  perform_kind screen_log a s = elim (safe_weak_get (game.weak_get s.world) a.controller).0 [
    | none ↦ s
    | some controller ↦ (send_screen_log game controller a.message s).1
  ]
  perform_kind private_chat a s =
      if is_empty a.receivers
      then s
      else (broadcast_display game (codes "PalCrosschat") a.message a.category a.receivers none s).1

  unfoldable pub perform : DeferredAction → Session game → Session game
  unfolding perform_kind
  perform a s = perform_kind a.kind a s

  unfoldable pub flush_deferred_actions : ℕ → Session game → Session game
  unfolding perform
  flush_deferred_actions zero s = s
  flush_deferred_actions (suc n) s = elim s.chat.deferred [
    | [] ↦ s
    | a ∷ actions ↦
        flush_deferred_actions n
          (perform a (record s { chat = record s.chat { deferred = actions } }))
  ]

  -- What BroadcastOne's answer leaves: a line that it did not accept goes back, and the loop ends.
  unfoldable pub after_line :
      BoundedQueue InboundMessage
      → InboundMessage
      → Bool × Session game
      → Bool × (BoundedQueue InboundMessage × Session game)
  after_line inbound msg (accepted, s) =
      if accepted then (true, (inbound, s)) else (false, (push inbound msg, s))

  -- A round, with what the database thread pushes between the pop and the end of the round.
  unfoldable pub show_popped :
      (lib : RegexLib)
      → Option (WordFilter lib)
      → List InboundMessage
      → Option InboundMessage × BoundedQueue InboundMessage
      → Session game
      → Bool × (BoundedQueue InboundMessage × Session game)
  unfolding broadcast_one after_line
  show_popped lib filter arrived (none, inbound) s = (false, (inbound, s))
  show_popped lib filter arrived (some msg, inbound) s =
      after_line (push_all inbound arrived) msg (broadcast_one game lib config filter msg s)

  -- The loop; `arrivals k` is what the database thread pushes in the round with `k` rounds behind it.
  unfoldable pub drain_inbound :
      (lib : RegexLib)
      → Option (WordFilter lib)
      → (ℕ → List InboundMessage)
      → ℕ
      → BoundedQueue InboundMessage
      → Session game
      → BoundedQueue InboundMessage × Session game
  unfolding show_popped
  drain_inbound lib filter arrivals zero inbound s = (inbound, s)
  drain_inbound lib filter arrivals (suc n) inbound s =
      let (again, (rest, s1)) = show_popped lib filter (arrivals n) (try_pop inbound) s in
      elim again [ false ↦ (rest, s1) | true ↦ drain_inbound lib filter arrivals n rest s1 ]

  -- `CanInjectNow` on the session.
  unfoldable pub can_inject : ℕ → Session game → (Bool × ℤ) × Session game
  unfolding can_inject_now
  can_inject now s =
      let get = game.weak_get s.world in
      let (candidate, w) = game.find_first_of s.world in
      let (allowed, chat) =
        can_inject_now get candidate now config.max_broadcasts_per_tick s.chat in
      let asks =
        not s.chat.inject_circuit_open && not (is_some (safe_weak_get get s.chat.game_state).0) in
      (allowed, record s { chat = chat; world = if asks then w else s.world })

  unfoldable pub drain :
      (lib : RegexLib)
      → Option (WordFilter lib)
      → ℕ
      → (ℕ → List InboundMessage)
      → BoundedQueue InboundMessage
      → Session game
      → BoundedQueue InboundMessage × Session game
  unfolding can_inject flush_deferred_actions drain_inbound
  drain lib filter now arrivals inbound s =
      let ((allowed, limit), s1) = can_inject now s in
      if not allowed
      then (inbound, s1)
      else drain_inbound lib filter arrivals (pos_part limit) inbound
          (flush_deferred_actions (pos_part (if ltb_ℤ (pos 0) limit then limit else pos 1)) s1)

  -- `Drain` with its catch clauses, which read the time `caught_at`. `stopped_by` is `none` where the try
  -- block comes to its end; an exception leaves what it leaves.
  unfoldable pub guarded_drain :
      (lib : RegexLib)
      → Option (WordFilter lib)
      → ℕ
      → (ℕ → List InboundMessage)
      → ℕ
      → Option (Option Bytes × (BoundedQueue InboundMessage × Session game))
      → BoundedQueue InboundMessage
      → Session game
      → ExceptionLog
      → (BoundedQueue InboundMessage × Session game) × ExceptionLog
  unfolding drain catch_all
  guarded_drain lib filter now arrivals caught_at stopped_by inbound s log =
      catch_all caught_at
        (elim stopped_by [
          | none ↦ returned (drain lib filter now arrivals inbound s)
          | some (what, left) ↦ thrown what left
        ])
        log

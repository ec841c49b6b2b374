-- ===== src/ChatInject/Quiet.antt =====
-- The circuit in BroadcastDisplay, ShowServerNotice and SendScreenLog.
use palworld_pal_crosschat.Base.{
  ℕ, ◌≡◌, ap, ◌∙◌, inl, inr, Bool, true, false, not, ◌||◌, Option, List, [], arith, if◌then◌else◌,
  Bool-cases, Option-cases, is_some, if_both, if_true, if_false, is_empty, Bytes,
}
use palworld_pal_crosschat.Guid.{Guid}
use palworld_pal_crosschat.Sanitize.{sanitize_notice}
use palworld_pal_crosschat.ChatInject.Game.{
  Game, Session, resolve, ensure_server_notice_function, call_game,
}
use palworld_pal_crosschat.ChatInject.Display.{
  filled_text, broadcast_display, prepare_broadcast, call_notice, prepare_notice,
  show_server_notice, send_screen_log,
}
use palworld_pal_crosschat.ChatInject.Silence.{
  Sound, SoundAfter, frame-Sound, resolve-IsFrame, resolve-closed, call_notice-Sound,
  ensure_server_notice_function-circuit, prepare_broadcast-Sound,
}

module _ (game : Game) where
  -- A call behind a game state that was found with the circuit closed.
  resolved-Sound :
      (s : Session game) (next : Session game → Bool × Session game)
      → s.chat.inject_circuit_open ≡ false
      → Sound game s
      → ((t : Session game)
          → t.chat.inject_circuit_open ≡ false
          → Sound game t
          → SoundAfter game (next t))
      → SoundAfter game (
          if not (is_some (resolve game s).0)
          then (false, (resolve game s).1)
          else next (resolve game s).1)
  resolved-Sound s next closed sound h =
      let sound1 = frame-Sound game s (resolve game s).1 (resolve-IsFrame game s) sound in
      elim (Option-cases (resolve game s).0) [
        | inl e ↦
            if_true (SoundAfter game) (not (is_some (resolve game s).0)) (false, (resolve game s).1)
              (next (resolve game s).1) (ap (λ o. not (is_some o)) e) sound1
        | inr (object, e) ↦
            if_false (SoundAfter game) (not (is_some (resolve game s).0))
              (false, (resolve game s).1) (next (resolve game s).1) (ap (λ o. not (is_some o)) e)
              (h (resolve game s).1 (resolve-closed game s object e ∙ closed) sound1)
      ]

  pub broadcast_display-Sound :
      (display_sender message : Bytes) (category : ℕ) (receivers : List Guid) (uid : Option Guid)
      (s : Session game)
      → Sound game s
      → SoundAfter game (broadcast_display game display_sender message category receivers uid s)
  unfolding broadcast_display
  broadcast_display-Sound display_sender message category receivers uid s sound =
      let next = prepare_broadcast game display_sender message category receivers uid in
      elim (Bool-cases s.chat.inject_circuit_open) [
        | inl e ↦ if_true (SoundAfter game) s.chat.inject_circuit_open (true, s) _ e sound
        | inr e ↦
            if_false (SoundAfter game) s.chat.inject_circuit_open (true, s) _ e
              (resolved-Sound s next e sound
                (prepare_broadcast-Sound game display_sender message category receivers uid))
      ]

  prepare_notice-Sound :
      (clean : Bytes) (s : Session game)
      → s.chat.inject_circuit_open ≡ false
      → Sound game s
      → SoundAfter game (prepare_notice game clean s)
  unfolding prepare_notice
  prepare_notice-Sound clean s closed sound =
      let (ready, chat) = ensure_server_notice_function game s.world s.chat in
      let s1 = record s { chat = chat } in
      let circuit = ensure_server_notice_function-circuit game s.world s.chat in
      let sound1 : Sound game s1 = rw circuit sound in
      let filled : List ℕ × game.World =
        if game.has_notice_property s1.world
        then filled_text game clean s1.world
        else ([], s1.world) in
      let s2 = record s1 { world = filled.1 } in
      let closed2 : s2.chat.inject_circuit_open ≡ false = circuit ∙ closed in
      if_both (SoundAfter game) (not ready) (false, s1)
        (call_notice game filled.0 (resolve game s2)) sound1
        (call_notice-Sound game filled.0 (resolve game s2)
          (λ object e. resolve-closed game s2 object e ∙ closed2)
          (frame-Sound game s2 (resolve game s2).1 (resolve-IsFrame game s2) sound1))

  pub show_server_notice-Sound :
      (notice : Bytes) (s : Session game)
      → Sound game s
      → SoundAfter game (show_server_notice game notice s)
  unfolding show_server_notice
  show_server_notice-Sound notice s sound =
      let clean = sanitize_notice notice 512 in
      elim (Bool-cases s.chat.inject_circuit_open) [
        | inl e ↦ if_true (SoundAfter game) s.chat.inject_circuit_open (true, s) _ e sound
        | inr e ↦
            if_false (SoundAfter game) s.chat.inject_circuit_open (true, s) _ e
              (if_both (SoundAfter game) (is_empty clean) (false, s) _ sound
                (resolved-Sound s (prepare_notice game clean) e sound (prepare_notice-Sound clean)))
      ]

  pub send_screen_log-Sound :
      (controller : ℕ) (message : Bytes) (s : Session game)
      → Sound game s
      → SoundAfter game (send_screen_log game controller message s)
  unfolding send_screen_log call_game
  send_screen_log-Sound controller message s sound =
      let clean = sanitize_notice message 512 in
      let blocked =
        s.chat.inject_circuit_open
        || is_empty clean
        || not (game.has_screen_function controller s.world) in
      elim (Bool-cases blocked) [
        | inl e ↦ if_true (SoundAfter game) blocked (false, s) _ e sound
        | inr e ↦
            let closed : s.chat.inject_circuit_open ≡ false = ground arith in
            if_false (SoundAfter game) blocked (false, s) _ e
              (λ _. (tt, sound.0 closed), sound.0 closed)
      ]

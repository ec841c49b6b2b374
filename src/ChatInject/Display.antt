-- ===== src/ChatInject/Display.antt =====
-- The calls of the game's functions: BroadcastDisplay, ShowServerNotice and SendScreenLog.
use palworld_pal_crosschat.Base.{
  ℕ, Bool, true, false, not, ◌||◌, Option, none, some, List, [], if◌then◌else◌, is_some, is_empty,
  Bytes,
}
use palworld_pal_crosschat.Guid.{Guid, nil_guid}
use palworld_pal_crosschat.Sanitize.{sanitize_notice}
use palworld_pal_crosschat.Audience.Defs.{forget_many}
use palworld_pal_crosschat.ChatCapture.State.{through}
use palworld_pal_crosschat.ChatInject.Ready.{trip_inject_circuit}
use palworld_pal_crosschat.ChatInject.Game.{
  ChatMessage, chat_call, notice_call, screen_call, Game, zero_fstring, fstring_text, Session,
  fill_init_fstring, fill_receivers, resolve, ensure_broadcast_function,
  ensure_server_notice_function, call_game,
}

-- A pointer to an id that may be null.
abbrev pub guid_or_zero : Option Guid → Guid
guid_or_zero none = nil_guid
guid_or_zero (some uid) = uid

module _ (game : Game) where
  -- The text that a zeroed FString holds after it was filled.
  unfoldable pub filled_text : Bytes → game.World → List ℕ × game.World
  unfolding fill_init_fstring
  filled_text utf8 w =
      let (filled, w1) = fill_init_fstring game zero_fstring utf8 w in
      (fstring_text filled.text, w1)

  unfoldable pub fill_message :
      Bytes → Bytes → ℕ → List Guid → Option Guid → game.World → ChatMessage × game.World
  unfolding filled_text fill_receivers
  fill_message display_sender message category receivers sender_player_uid w =
      let (sender_text, w1) = filled_text display_sender w in
      let (message_text, w2) = filled_text message w1 in
      let (uids, w3) = fill_receivers game receivers w2 in
      (
        record {
          category = category;
          sender = sender_text;
          sender_uid = guid_or_zero sender_player_uid;
          message = message_text;
          receivers = uids;
        },
        w3,
      )

  -- What follows the call of a function that may have faulted.
  unfoldable pub after_broadcast : List Guid → Bool × Session game → Bool × Session game
  unfolding forget_many trip_inject_circuit
  after_broadcast receivers (done, s) = if done then (true, s) else (
    true,
    record s {
      audience =
          if is_empty receivers
          then s.audience
          else through (λ t. forget_many t receivers) s.audience;
      chat = trip_inject_circuit s.chat;
    },
  )

  -- The call on the game state, which was looked up again.
  unfoldable pub call_broadcast :
      List Guid → ChatMessage → Option ℕ × Session game → Bool × Session game
  unfolding call_game after_broadcast
  call_broadcast receivers msg (none, s) = (false, s)
  call_broadcast receivers msg (some state, s) =
      after_broadcast receivers (call_game game (chat_call state msg) s)

  -- With a game state in hand: the function, the parameters and the call.
  unfoldable pub prepare_broadcast :
      Bytes → Bytes → ℕ → List Guid → Option Guid → Session game → Bool × Session game
  unfolding ensure_broadcast_function fill_message resolve call_broadcast
  prepare_broadcast display_sender message category receivers sender_player_uid s =
      let (ready, chat) = ensure_broadcast_function game s.world s.chat in
      let s1 = record s { chat = chat } in
      if not ready
      then (false, s1)
      else (let (msg, w) =
            fill_message display_sender message category receivers sender_player_uid s1.world in
          call_broadcast receivers msg (resolve game (record s1 { world = w })))

  unfoldable pub broadcast_display :
      Bytes → Bytes → ℕ → List Guid → Option Guid → Session game → Bool × Session game
  unfolding resolve prepare_broadcast
  broadcast_display display_sender message category receivers sender_player_uid s =
      if s.chat.inject_circuit_open
      then (true, s)
      else (let (state, s1) = resolve game s in
          if not (is_some state)
          then (false, s1)
          else prepare_broadcast display_sender message category receivers sender_player_uid s1)

  unfoldable pub after_notice : Bool × Session game → Bool × Session game
  unfolding trip_inject_circuit
  after_notice (done, s) =
      if done then (true, s) else (true, record s { chat = trip_inject_circuit s.chat })

  unfoldable pub call_notice : List ℕ → Option ℕ × Session game → Bool × Session game
  unfolding call_game after_notice
  call_notice text (none, s) = (false, s)
  call_notice text (some state, s) = after_notice (call_game game (notice_call state text) s)

  unfoldable pub prepare_notice : Bytes → Session game → Bool × Session game
  unfolding ensure_server_notice_function filled_text resolve call_notice
  prepare_notice clean s =
      let (ready, chat) = ensure_server_notice_function game s.world s.chat in
      let s1 = record s { chat = chat } in
      if not ready
      then (false, s1)
      else (let (text, w) : List ℕ × game.World =
            if game.has_notice_property s1.world
            then filled_text clean s1.world
            else ([], s1.world) in
          call_notice text (resolve game (record s1 { world = w })))

  unfoldable pub show_server_notice : Bytes → Session game → Bool × Session game
  unfolding resolve prepare_notice
  show_server_notice notice_message s =
      let clean = sanitize_notice notice_message 512 in
      if s.chat.inject_circuit_open
      then (true, s)
      else if is_empty clean
      then (false, s)
      else (let (state, s1) = resolve game s in
          if not (is_some state) then (false, s1) else prepare_notice clean s1)

  -- The duration, the colour and the key of the screen log are constants.
  unfoldable pub send_screen_log : ℕ → Bytes → Session game → Bool × Session game
  unfolding filled_text call_game
  send_screen_log controller message s =
      let clean = sanitize_notice message 512 in
      if s.chat.inject_circuit_open
        || is_empty clean
        || not (game.has_screen_function controller s.world)
      then (false, s)
      else (let (text, w) : List ℕ × game.World =
            if game.has_screen_property controller s.world
            then filled_text clean s.world
            else ([], s.world) in
          call_game game (screen_call controller text) (record s { world = w }))

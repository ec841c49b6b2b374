-- ===== src/ChatInject/Addressed.antt =====
-- Who receives a line of chat: BroadcastDual never calls BroadcastChatMessage without receivers, which
-- the game would take for everyone.
use palworld_pal_crosschat.Base.{
  ℕ, ◌*◌, ◌<◌, ◌≡◌, refl, ap, ◌∙◌, ◌⊎◌, inl, inr, Bool, true, false, not, Option, none, some, List,
  [], ◌∷◌, arith, if◌then◌else◌, is_some, if_both, option_both, All, length, is_empty, Bytes,
}
use palworld_pal_crosschat.Guid.{Guid, nil_guid}
use palworld_pal_crosschat.Audience.Defs.{AudienceTracker}
use palworld_pal_crosschat.ChatInject.Game.{
  Game, GameCall, chat_call, notice_call, screen_call, ChatMessage, Session, resolve,
  fill_receivers, ensure_broadcast_function, call_game,
}
use palworld_pal_crosschat.ChatInject.Display.{
  guid_or_zero, fill_message, after_broadcast, call_broadcast, prepare_broadcast, broadcast_display,
}
use palworld_pal_crosschat.ChatInject.Lines.{
  Line, groups, to_others, to_xbox, send_both, broadcast_dual, xbox_uid_of,
}

-- Every allocation succeeds.
abbrev pub Allocates : Game → Type 0
Allocates game = (bytes : ℕ) (w : game.World) → (game.malloc bytes w).0 ≡ true

-- A call that goes to given receivers, of whom there are some, with a given id.
abbrev pub GoesTo : List Guid → Guid → GameCall × Bool → Type 0
GoesTo receivers uid (chat_call _ msg, _) =
    (is_empty receivers ≡ false) × (msg.receivers ≡ receivers) × (msg.sender_uid ≡ uid)
GoesTo receivers uid (notice_call _ _, _) = false ≡ true
GoesTo receivers uid (screen_call _ _, _) = false ≡ true

-- The others get a line without an id; the Xbox players get it with the id of its sender, who is a
-- player of this server.
abbrev pub IsAddressed :
    Option AudienceTracker → Line → List Guid × List Guid → GameCall × Bool → Type 0
IsAddressed audience line (xbox, others) call =
    GoesTo others nil_guid call
    ⊎ ((uid : Guid) × (xbox_uid_of audience line.sender_player_uid ≡ some uid)
        × GoesTo xbox uid call)

module _ (game : Game) (P : GameCall × Bool → Type 0) where
  abbrev HoldsAfter : Bool × Session game → Type 0
  HoldsAfter (_, s) = All P s.calls

  after_broadcast-HoldsAfter :
      (receivers : List Guid) (r : Bool × Session game)
      → HoldsAfter r
      → HoldsAfter (after_broadcast game receivers r)
  unfolding after_broadcast
  after_broadcast-HoldsAfter receivers (true, s) h = h
  after_broadcast-HoldsAfter receivers (false, s) h = h

  call_broadcast-HoldsAfter :
      (receivers : List Guid) (msg : ChatMessage) (r : Option ℕ × Session game)
      → ((state : ℕ) (done : Bool) → P (chat_call state msg, done))
      → All P r.1.calls
      → HoldsAfter (call_broadcast game receivers msg r)
  unfolding call_broadcast call_game
  call_broadcast-HoldsAfter receivers msg (none, s) p h = h
  call_broadcast-HoldsAfter receivers msg (some state, s) p h =
      after_broadcast-HoldsAfter receivers (call_game game (chat_call state msg) s)
        (p state (game.process_event (chat_call state msg) s.world).0, h)

  fill_receivers-all :
      (receivers : List Guid) (w : game.World)
      → Allocates game
      → length receivers < 512
      → (fill_receivers game receivers w).0 ≡ receivers
  unfolding fill_receivers
  fill_receivers-all [] w allocates h = ground arith
  fill_receivers-all (uid ∷ uids) w allocates h =
      let got = allocates (length (uid ∷ uids) * 16) w in ground arith

  -- What P must hold of: every call with these receivers and this id.
  abbrev Admits : List Guid → Option Guid → Type 0
  Admits receivers uid =
      (state : ℕ) (done : Bool) (msg : ChatMessage)
      → msg.receivers ≡ receivers
      → msg.sender_uid ≡ guid_or_zero uid
      → P (chat_call state msg, done)

  fill_message-receivers :
      (display_sender message : Bytes) (category : ℕ) (receivers : List Guid) (uid : Option Guid)
      (w : game.World)
      → Allocates game
      → length receivers < 512
      → ((fill_message game display_sender message category receivers uid w).0.receivers
          ≡ receivers)
        × ((fill_message game display_sender message category receivers uid w).0.sender_uid
            ≡ guid_or_zero uid)
  unfolding fill_message
  fill_message-receivers display_sender message category receivers uid w allocates few =
      (fill_receivers-all receivers _ allocates few, refl)

  prepare_broadcast-HoldsAfter :
      (display_sender message : Bytes) (category : ℕ) (receivers : List Guid) (uid : Option Guid)
      (s : Session game)
      → Allocates game
      → length receivers < 512
      → Admits receivers uid
      → All P s.calls
      → HoldsAfter (prepare_broadcast game display_sender message category receivers uid s)
  unfolding prepare_broadcast resolve
  prepare_broadcast-HoldsAfter display_sender message category receivers uid s allocates few p h =
      let (ready, chat) = ensure_broadcast_function game s.world s.chat in
      let s1 = record s { chat = chat } in
      let (msg, w) = fill_message game display_sender message category receivers uid s.world in
      let (same, own) =
        fill_message-receivers display_sender message category receivers uid s.world allocates
          few in
      let s2 = record s1 { world = w } in
      if_both HoldsAfter (not ready) (false, s1)
        (call_broadcast game receivers msg (resolve game s2)) h
        (call_broadcast-HoldsAfter receivers msg (resolve game s2)
          (λ state done. p state done msg same own) h)

  broadcast_display-HoldsAfter :
      (display_sender message : Bytes) (category : ℕ) (receivers : List Guid) (uid : Option Guid)
      (s : Session game)
      → Allocates game
      → length receivers < 512
      → Admits receivers uid
      → All P s.calls
      → HoldsAfter (broadcast_display game display_sender message category receivers uid s)
  unfolding broadcast_display resolve
  broadcast_display-HoldsAfter display_sender message category receivers uid s allocates few p h =
      let (state, s1) = resolve game s in
      let next = prepare_broadcast game display_sender message category receivers uid s1 in
      if_both HoldsAfter s.chat.inject_circuit_open (true, s)
        (if not (is_some state) then (false, s1) else next) h
        (if_both HoldsAfter (not (is_some state)) (false, s1) next h
          (prepare_broadcast-HoldsAfter display_sender message category receivers uid s1 allocates
            few p h))

  to_xbox-HoldsAfter :
      (line : Line) (xbox : List Guid) (uid : Option Guid) (s : Session game)
      → Allocates game
      → length xbox < 512
      → ((own : Guid) → uid ≡ some own → Admits xbox uid)
      → All P s.calls
      → HoldsAfter (to_xbox game line xbox uid s)
  unfolding to_xbox
  to_xbox-HoldsAfter line xbox none s allocates few p h = h
  to_xbox-HoldsAfter line xbox (some uid) s allocates few p h =
      broadcast_display-HoldsAfter line.xbox_sender line.xbox_message line.category xbox (some uid)
        s allocates few (p uid refl) h

  to_others-HoldsAfter :
      (line : Line) (others : List Guid) (s : Session game)
      → Allocates game
      → length others < 512
      → Admits others none
      → All P s.calls
      → HoldsAfter (to_others game line others s)
  unfolding to_others
  to_others-HoldsAfter line others s allocates few p h =
      broadcast_display-HoldsAfter line.formatted_sender line.formatted_message line.category others
        none s allocates few p h

  send_both-HoldsAfter :
      (line : Line) (xbox others : List Guid) (uid : Option Guid) (s : Session game)
      → Allocates game
      → length xbox < 512
      → length others < 512
      → (is_empty others ≡ false → Admits others none)
      → (is_empty xbox ≡ false → (own : Guid) → uid ≡ some own → Admits xbox uid)
      → All P s.calls
      → HoldsAfter (send_both game line xbox others uid s)
  unfolding send_both
  send_both-HoldsAfter line [] [] uid s allocates few1 few2 p q h = h
  send_both-HoldsAfter line [] (o ∷ others) uid s allocates few1 few2 p q h =
      to_others-HoldsAfter line (o ∷ others) s allocates few2 (p refl) h
  send_both-HoldsAfter line (x ∷ xbox) [] uid s allocates few1 few2 p q h =
      to_xbox-HoldsAfter line (x ∷ xbox) uid s allocates few1 (q refl) h
  send_both-HoldsAfter line (x ∷ xbox) (o ∷ others) uid s allocates few1 few2 p q h =
      to_xbox-HoldsAfter line (x ∷ xbox) uid _ allocates few1 (q refl)
        (to_others-HoldsAfter line (o ∷ others) s allocates few2 (p refl) h)

groups-calls : (game : Game) (s : Session game) → (groups game s).1.calls ≡ s.calls
unfolding groups
groups-calls game s =
    option_both (λ (r : (List Guid × List Guid) × Session game). r.1.calls ≡ s.calls) s.audience _ _
      refl (λ t. refl)

-- Where the game's allocations succeed and there are fewer than 512 players in each group, every call
-- that BroadcastDual makes goes to receivers of whom there are some, and so never to everyone: to the
-- players of the other platforms, without an id, or to those of Xbox, with the id of the line's
-- sender, who then is a player of this server.
pub broadcast_dual-IsAddressed :
    (game : Game) (line : Line) (s : Session game)
    → Allocates game
    → length (groups game s).0.0 < 512
    → length (groups game s).0.1 < 512
    → s.calls ≡ []
    → All
        (IsAddressed (groups game s).1.audience line (groups game s).0)
        (broadcast_dual game line s).1.calls
unfolding broadcast_dual
broadcast_dual-IsAddressed game line s allocates few1 few2 none_yet =
    let ((xbox, others), s1) = groups game s in
    let uid = xbox_uid_of s1.audience line.sender_player_uid in
    send_both-HoldsAfter game (IsAddressed s1.audience line (xbox, others)) line xbox others uid s1
      allocates few1 few2 (λ some_others state done msg same own. inl (some_others, same, own))
      (λ some_xbox real e state done msg same own.
        inr (real, e, (some_xbox, same, own ∙ ap guid_or_zero e)))
      (rw (groups-calls game s ∙ none_yet) tt)

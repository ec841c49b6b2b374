-- ===== src/ChatInject/Silence.antt =====
-- The circuit: after a fault in a call of the game, nothing more is called.
use palworld_pal_crosschat.Base.{
  ℕ, ◌≡◌, refl, ◌∙◌, Bool, true, false, not, Option, none, some, List, [], ◌∷◌, arith, if_both, All,
  Bytes,
}
use palworld_pal_crosschat.Guid.{Guid}
use palworld_pal_crosschat.Engine.{safe_weak_get}
use palworld_pal_crosschat.ChatInject.{ChatInject}
use palworld_pal_crosschat.ChatInject.Ready.{
  Guarded, completes, crashes, Candidate, find_game_state_seh, trip_inject_circuit, find_game_state,
  resolve_game_state,
}
use palworld_pal_crosschat.ChatInject.Game.{
  Game, GameCall, chat_call, notice_call, screen_call, ChatMessage, Session, resolve,
  ensure_broadcast_function, ensure_server_notice_function, call_game,
}
use palworld_pal_crosschat.ChatInject.Display.{
  fill_message, after_broadcast, call_broadcast, prepare_broadcast, after_notice, call_notice,
}

-- A call that succeeded, or one that does not open the circuit.
abbrev pub IsFine : GameCall × Bool → Type 0
IsFine (screen_call _ _, _) = Unit
IsFine (chat_call _ _, done) = done ≡ true
IsFine (notice_call _ _, done) = done ≡ true

-- Of all calls, the newest first, only the last one failed.
abbrev pub IsQuiet : List (GameCall × Bool) → Type 0
IsQuiet [] = Unit
IsQuiet (_ ∷ calls) = All IsFine calls

-- While the circuit is closed, no call of the list has failed.
abbrev pub IsSilent : Bool → List (GameCall × Bool) → Type 0
IsSilent is_open calls = (is_open ≡ false → All IsFine calls) × IsQuiet calls

find_game_state-closed :
    (ending : Guarded (Option Candidate)) (i : ChatInject) (object : ℕ)
    → (find_game_state ending i).0 ≡ some object
    → (find_game_state ending i).1.inject_circuit_open ≡ i.inject_circuit_open
unfolding find_game_state
find_game_state-closed crashes i object e = cc
find_game_state-closed (completes none) i object e = cc
find_game_state-closed (completes (some o)) i object e = ground arith

find_game_state-opens :
    (ending : Guarded (Option Candidate)) (i : ChatInject)
    → (find_game_state ending i).1.inject_circuit_open ≡ false
    → i.inject_circuit_open ≡ false
unfolding find_game_state trip_inject_circuit
find_game_state-opens crashes i e = ground arith
find_game_state-opens (completes none) i e = e
find_game_state-opens (completes (some o)) i e = ground arith

-- The game state that is cached, or else the one that is found.
abbrev pub chosen : Guarded (Option Candidate) → ChatInject → Option ℕ → Option ℕ × ChatInject
chosen ending i cached = elim cached [
  | some object ↦ (some object, i)
  | none ↦ find_game_state ending (record i { game_state = none })
]

chosen-closed :
    (ending : Guarded (Option Candidate)) (i : ChatInject) (cached : Option ℕ) (object : ℕ)
    → (chosen ending i cached).0 ≡ some object
    → (chosen ending i cached).1.inject_circuit_open ≡ i.inject_circuit_open
chosen-closed ending i none object e =
    find_game_state-closed ending (record i { game_state = none }) object e
chosen-closed ending i (some o) object e = refl

pub chosen-opens :
    (ending : Guarded (Option Candidate)) (i : ChatInject) (cached : Option ℕ)
    → (chosen ending i cached).1.inject_circuit_open ≡ false
    → i.inject_circuit_open ≡ false
chosen-opens ending i none e = find_game_state-opens ending (record i { game_state = none }) e
chosen-opens ending i (some o) e = e

trip_inject_circuit-open : (i : ChatInject) → (trip_inject_circuit i).inject_circuit_open ≡ true
unfolding trip_inject_circuit
trip_inject_circuit-open i = ground arith

module _ (game : Game) where
  abbrev pub Sound : Session game → Type 0
  Sound s = IsSilent s.chat.inject_circuit_open s.calls

  abbrev pub SoundAfter : Bool × Session game → Type 0
  SoundAfter (_, s) = Sound s

  -- The calls are the same, and the circuit is closed only if it was.
  abbrev pub IsFrame : Session game → Session game → Type 0
  IsFrame s t =
      (t.calls ≡ s.calls)
      × (t.chat.inject_circuit_open ≡ false → s.chat.inject_circuit_open ≡ false)

  pub frame-Sound : (s t : Session game) → IsFrame s t → Sound s → Sound t
  frame-Sound s t (same, opens) (fine, quiet) = rw same (λ closed. fine (opens closed), quiet)

  pub resolve-IsFrame : (s : Session game) → IsFrame s (resolve game s).1
  unfolding resolve resolve_game_state
  resolve-IsFrame s = (
    refl,
    chosen-opens (find_game_state_seh (game.find_first_of s.world).0) s.chat
        (safe_weak_get (game.weak_get s.world) s.chat.game_state).0,
  )

  pub resolve-closed :
      (s : Session game) (object : ℕ)
      → (resolve game s).0 ≡ some object
      → (resolve game s).1.chat.inject_circuit_open ≡ s.chat.inject_circuit_open
  unfolding resolve resolve_game_state
  resolve-closed s object =
      chosen-closed (find_game_state_seh (game.find_first_of s.world).0) s.chat
        (safe_weak_get (game.weak_get s.world) s.chat.game_state).0 object

  -- After a call that was made with the circuit closed.
  after_broadcast-Sound :
      (receivers : List Guid) (state : ℕ) (msg : ChatMessage) (r : Bool × game.World)
      (s : Session game)
      → s.chat.inject_circuit_open ≡ false
      → Sound s
      → SoundAfter (
          after_broadcast game receivers
            (r.0, record s { world = r.1; calls = (chat_call state msg, r.0) ∷ s.calls }))
  unfolding after_broadcast
  after_broadcast-Sound receivers state msg (true, w) s closed (fine, quiet) =
      (λ _. (refl, fine closed), fine closed)
  after_broadcast-Sound receivers state msg (false, w) s closed (fine, quiet) =
      let opened = trip_inject_circuit-open s.chat in (λ e. cc, fine closed)

  after_notice-Sound :
      (state : ℕ) (text : List ℕ) (r : Bool × game.World) (s : Session game)
      → s.chat.inject_circuit_open ≡ false
      → Sound s
      → SoundAfter (
          after_notice game
            (r.0, record s { world = r.1; calls = (notice_call state text, r.0) ∷ s.calls }))
  unfolding after_notice
  after_notice-Sound state text (true, w) s closed (fine, quiet) =
      (λ _. (refl, fine closed), fine closed)
  after_notice-Sound state text (false, w) s closed (fine, quiet) =
      let opened = trip_inject_circuit-open s.chat in (λ e. cc, fine closed)

  call_broadcast-Sound :
      (receivers : List Guid) (msg : ChatMessage) (r : Option ℕ × Session game)
      → ((object : ℕ) → r.0 ≡ some object → r.1.chat.inject_circuit_open ≡ false)
      → Sound r.1
      → SoundAfter (call_broadcast game receivers msg r)
  unfolding call_broadcast call_game
  call_broadcast-Sound receivers msg (none, s) closed sound = sound
  call_broadcast-Sound receivers msg (some state, s) closed sound =
      after_broadcast-Sound receivers state msg (game.process_event (chat_call state msg) s.world) s
        (closed state refl) sound

  pub call_notice-Sound :
      (text : List ℕ) (r : Option ℕ × Session game)
      → ((object : ℕ) → r.0 ≡ some object → r.1.chat.inject_circuit_open ≡ false)
      → Sound r.1
      → SoundAfter (call_notice game text r)
  unfolding call_notice call_game
  call_notice-Sound text (none, s) closed sound = sound
  call_notice-Sound text (some state, s) closed sound =
      after_notice-Sound state text (game.process_event (notice_call state text) s.world) s
        (closed state refl) sound

  ensure_broadcast_function-circuit :
      (w : game.World) (i : ChatInject)
      → (ensure_broadcast_function game w i).1.inject_circuit_open ≡ i.inject_circuit_open
  unfolding ensure_broadcast_function
  ensure_broadcast_function-circuit w i = ground arith

  pub ensure_server_notice_function-circuit :
      (w : game.World) (i : ChatInject)
      → (ensure_server_notice_function game w i).1.inject_circuit_open ≡ i.inject_circuit_open
  unfolding ensure_server_notice_function
  ensure_server_notice_function-circuit w i = ground arith

  pub prepare_broadcast-Sound :
      (display_sender message : Bytes) (category : ℕ) (receivers : List Guid) (uid : Option Guid)
      (s : Session game)
      → s.chat.inject_circuit_open ≡ false
      → Sound s
      → SoundAfter (prepare_broadcast game display_sender message category receivers uid s)
  unfolding prepare_broadcast
  prepare_broadcast-Sound display_sender message category receivers uid s closed sound =
      let (ready, chat) = ensure_broadcast_function game s.world s.chat in
      let s1 = record s { chat = chat } in
      let circuit = ensure_broadcast_function-circuit s.world s.chat in
      let sound1 : Sound s1 = rw circuit sound in
      let (msg, w) = fill_message game display_sender message category receivers uid s.world in
      let s2 = record s1 { world = w } in
      let closed2 : s2.chat.inject_circuit_open ≡ false = circuit ∙ closed in
      if_both SoundAfter (not ready) (false, s1)
        (call_broadcast game receivers msg (resolve game s2)) sound1
        (call_broadcast-Sound receivers msg (resolve game s2)
          (λ object e. resolve-closed s2 object e ∙ closed2)
          (frame-Sound s2 (resolve game s2).1 (resolve-IsFrame s2) sound1))

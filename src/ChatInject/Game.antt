-- ===== src/ChatInject/Game.antt =====
-- The game as ChatInject uses it, and what ChatInject prepares for a call of one of its functions.
use palworld_pal_crosschat.Base.{
  ℕ, ◌+◌, ◌*◌, Bool, true, false, not, ◌&&◌, ◌||◌, Option, none, some, List, [], ◌∷◌, ltb,
  if◌then◌else◌, is_some, length, is_empty, all, Bytes, ℤ, pos, ltb_ℤ,
}
use palworld_pal_crosschat.Guid.{Guid}
use palworld_pal_crosschat.Engine.{WeakGet, PlayerState, safe_weak_get}
use palworld_pal_crosschat.Audience.Defs.{AudienceTracker}
use palworld_pal_crosschat.ChatInject.{ChatInject}
use palworld_pal_crosschat.ChatInject.Ready.{Guarded, Candidate, resolve_game_state}

pub data GameFunction : Type 0 where
  broadcast_chat_message broadcast_server_notice : GameFunction

-- The fields of FPalChatMessage that are resolved.
pub data ChatField : Type 0 where
  category_field sender_field sender_uid_field message_field receivers_field message_id_field
        arg_keys_field arg_values_field :
      ChatField

-- FPalChatMessage, with its texts as UTF-16 code units. No receivers stand for everyone.
pub record ChatMessage : Type 0 where
  pub category : ℕ
  pub sender : List ℕ
  pub sender_uid : Guid
  pub message : List ℕ
  pub receivers : List Guid

-- The calls of ProcessEvent, with the handle of the object.
pub data GameCall : Type 0 where
  chat_call : ℕ → ChatMessage → GameCall
  notice_call : ℕ → List ℕ → GameCall
  screen_call : ℕ → List ℕ → GameCall

-- The engine, the host and the game. A call that can fail gives `true` for success, and a call of
-- ProcessEvent gives `false` for a hardware fault.
pub record Game : Type 1 where
  pub World : Type 0
  pub to_wide : Bytes → List ℕ
  pub weak_get : World → ℕ → WeakGet ℕ
  pub weak_states : World → ℕ → WeakGet PlayerState
  pub find_first_of : World → Guarded (Option Candidate) × World
  pub find_players : World → Option (List (Option PlayerState))
  pub find_function : GameFunction → World → Bool
  pub has_chat_property : World → Bool
  pub has_chat_struct : World → Bool
  pub has_field : ChatField → World → Bool
  pub has_notice_property : World → Bool
  pub has_screen_function : ℕ → World → Bool
  pub has_screen_property : ℕ → World → Bool
  pub malloc : ℕ → World → Bool × World
  pub free : World → World
  pub process_event : GameCall → World → Bool × World

-- The layout of the game's FString.
pub record FString : Type 0 where
  pub text : Option (List ℕ)
  pub num : ℤ
  pub capacity : ℤ

-- A zeroed FString.
abbrev pub zero_fstring : FString
zero_fstring = record { text = none; num = pos 0; capacity = pos 0 }

-- What the game reads of it.
abbrev pub fstring_text : Option (List ℕ) → List ℕ
fstring_text none = []
fstring_text (some units) = units

-- ChatInject with the audience that it points to, the game, and the calls of ProcessEvent so far, the
-- newest first, each with its success.
pub record Session (game : Game) : Type 0 where
  pub chat : ChatInject
  pub audience : Option AudienceTracker
  pub world : game.World
  pub calls : List (GameCall × Bool)

abbrev pub chat_fields : List ChatField
chat_fields =
    category_field ∷ sender_field ∷ sender_uid_field ∷ message_field ∷ receivers_field
    ∷ message_id_field ∷ arg_keys_field ∷ arg_values_field ∷ []

-- A buffer that holds `len` code units and a zero, filled with the text.
unfoldable pub filled_fstring : Bool → List ℕ → FString
filled_fstring got text =
    if got
    then record { text = some text; num = pos (length text + 1); capacity = pos (length text + 1) }
    else zero_fstring

module _ (game : Game) where
  open game use {World}

  unfoldable pub fill_init_fstring : FString → Bytes → World → FString × World
  unfolding filled_fstring
  fill_init_fstring dest utf8 w =
      if ltb_ℤ dest.num (pos 0)
        || ltb_ℤ dest.capacity (pos 0)
        || ltb_ℤ dest.capacity dest.num
        || ltb_ℤ (pos 0x100000) dest.capacity
      then (dest, w)
      else (let text = game.to_wide utf8 in
          let (got, w1) : Bool × World =
            if is_empty text then (false, w) else game.malloc ((length text + 1) * 2) w in
          (
            filled_fstring got text,
            if is_some dest.text && ltb_ℤ (pos 1) dest.num then game.free w1 else w1,
          ))

  -- The receivers of a call, in a zeroed array.
  unfoldable pub fill_receivers : List Guid → World → List Guid × World
  fill_receivers receivers w =
      if is_empty receivers || not (ltb (length receivers) 512)
      then ([], w)
      else (let (got, w1) = game.malloc (length receivers * 16) w in
          (if got then receivers else [], w1))

  -- `ResolveGameState`
  unfoldable pub resolve : Session game → Option ℕ × Session game
  unfolding resolve_game_state
  resolve s =
      let get = game.weak_get s.world in
      let (candidate, w) = game.find_first_of s.world in
      let (state, chat) = resolve_game_state get candidate s.chat in
      (
        state,
        record s {
          chat = chat;
          world = if is_some (safe_weak_get get s.chat.game_state).0 then s.world else w;
        },
      )

  unfoldable pub ensure_broadcast_function : World → ChatInject → Bool × ChatInject
  ensure_broadcast_function w i =
      if i.broadcast_fn && i.offsets_ready
      then (true, i)
      else (let found_fn = record i {
        broadcast_fn = game.find_function broadcast_chat_message w;
      } in
          if not found_fn.broadcast_fn
            || not (game.has_chat_property w)
            || not (game.has_chat_struct w)
            || not (all (λ field. game.has_field field w) chat_fields)
          then (false, found_fn)
          else (true, record found_fn { offsets_ready = true }))

  unfoldable pub ensure_server_notice_function : World → ChatInject → Bool × ChatInject
  ensure_server_notice_function w i =
      if i.server_notice_fn
      then (true, i)
      else (let found_fn = game.find_function broadcast_server_notice w in
          (found_fn, record i { server_notice_fn = found_fn }))

  -- `SafeProcessEvent` on an object and a function that are not null.
  unfoldable pub call_game : GameCall → Session game → Bool × Session game
  call_game call s =
      let (done, w) = game.process_event call s.world in
      (done, record s { world = w; calls = (call, done) ∷ s.calls })

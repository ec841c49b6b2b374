-- ===== src/Engine.antt =====
-- What the mod reads from the game's objects. The engine and its reflection are not this program's
-- code: an object is the record of what a read of it returns, and a null pointer is `none`.
use palworld_pal_crosschat.Base.{
  ℕ, Bool, false, not, ◌&&◌, Option, none, some, [], if◌then◌else◌, Bytes,
}
use palworld_pal_crosschat.Guid.{Guid, nil_guid}

-- What `ResolveViaUniqueNetId` finds on its way: whether each function, property and object is there,
-- and the text that GetPlayerUniqueIdToString returns.
pub record UniqueNetId : Type 0 where
  pub has_bp_get_unique_id : Bool
  pub has_get_unique_id : Bool
  pub has_return_property : Bool
  pub has_value : Bool
  pub has_utility : Bool
  pub has_to_string : Bool
  pub has_user_id_property : Bool
  pub has_string_property : Bool
  pub text : Option Bytes
  -- A hardware fault inside the calls, which the SEH guard catches.
  pub faults : Bool

-- What GetPlayerName answers: no such function, a fault, no return value, or a text.
pub data NameCall : Type 0 where
  no_function faulted no_return : NameCall
  returned : Bytes → NameCall

-- A PalPlayerState. A property that reflection does not find is `none`.
pub record PlayerState : Type 0 where
  pub address : ℕ
  pub player_uid : Option Guid
  pub player_name : Option Bytes
  pub account_name : Option Bytes
  pub guild : Option (Option Bytes)
  pub get_player_name : NameCall
  pub unique_net_id : UniqueNetId
  -- A fault while the join identity is read.
  pub read_faults : Bool

-- A PalPlayerController.
pub record Controller : Type 0 where
  pub handle : ℕ
  pub state : Option PlayerState

-- A text read through an `FString*` that may be null.
abbrev pub text_or_empty : Option Bytes → Bytes
text_or_empty none = []
text_or_empty (some s) = s

unfoldable pub get_player_state : Option Controller → Option PlayerState
get_player_state none = none
get_player_state (some c) = c.state

unfoldable pub read_player_name_property : Option PlayerState → Bytes
read_player_name_property none = []
read_player_name_property (some p) = text_or_empty p.player_name

unfoldable pub resolve_player_name : Option PlayerState → Bytes
unfolding read_player_name_property
resolve_player_name none = []
resolve_player_name (some p) = elim p.get_player_name [
  | returned s ↦ s
  | no_function ↦ read_player_name_property (some p)
  | faulted ↦ read_player_name_property (some p)
  | no_return ↦ read_player_name_property (some p)
]

abbrev pub guild_text : Option (Option Bytes) → Bytes
guild_text none = []
guild_text (some name) = text_or_empty name

unfoldable pub read_guild_name : Option PlayerState → Bytes
read_guild_name none = []
read_guild_name (some p) = guild_text p.guild

unfoldable pub read_account_name : Option PlayerState → Bytes
read_account_name none = []
read_account_name (some p) = text_or_empty p.account_name

abbrev pub guid_or_nil : Option Guid → Guid
guid_or_nil none = nil_guid
guid_or_nil (some g) = g

-- `TryReadPlayerUId` and `ReadPlayerUIdProperty`: the id read, which is nil when the read fails.
unfoldable pub read_player_uid : Option PlayerState → Guid
read_player_uid none = nil_guid
read_player_uid (some p) = guid_or_nil p.player_uid

-- What `FWeakObjectPtr::Get` of an object's handle does at one moment.
pub data WeakGet (A : Type 0) : Type 0 where
  live : A → WeakGet A
  gone faults : WeakGet A

-- `SafeWeakGet` of src/SehUtil.cpp: the object, and the pointer, which a fault resets. A null pointer
-- is `none`.
unfoldable pub safe_weak_get : {A : Type 0} → (ℕ → WeakGet A) → Option ℕ → Option A × Option ℕ
safe_weak_get get none = (none, none)
safe_weak_get get (some handle) = elim (get handle) [
  | live object ↦ (some object, some handle)
  | gone ↦ (none, some handle)
  | faults ↦ (none, none)
]

-- `SafeProcessEvent`: no call on a null object or function, and `false` after a fault.
unfoldable pub safe_process_event : Bool → Bool → Bool → Bool
safe_process_event has_object has_function has_fault =
    if not (has_object && has_function) then false else not has_fault

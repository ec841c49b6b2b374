-- ===== src/PlatformId.antt =====
-- src/PlatformId.cpp: the platform user id of a player, `steam_…`, `gdk_…` or `ps5_…`.
pub mod Normal
use palworld_pal_crosschat.Base.{
  ◌+◌, ◌-◌, ◌/◌, Bool, not, ◌&&◌, ◌||◌, Option, none, some, [], ◌++◌, leb, if◌then◌else◌, length,
  is_empty, drop, all, Bytes, codes, is_space, is_digit, starts_with, trim_by,
}
use palworld_pal_crosschat.Engine.{PlayerState, UniqueNetId, text_or_empty, read_account_name}

-- `find_first_of` finds no other byte, and the text is not empty.
unfoldable pub is_digits : Bytes → Bool
is_digits s = not (is_empty s) && all is_digit s

abbrev pub steam : Bytes
steam = codes "steam_"

abbrev pub gdk : Bytes
gdk = codes "gdk_"

abbrev pub ps5 : Bytes
ps5 = codes "ps5_"

abbrev pub is_platform_id : Bytes → Bool
is_platform_id raw = starts_with steam raw || starts_with gdk raw || starts_with ps5 raw

abbrev pub is_steam_url : Bytes → Bool
is_steam_url raw = starts_with (codes "Steam:") raw || starts_with (codes "steam:") raw

-- The tests behind the trimming.
unfoldable pub classify : Bytes → Bytes
classify raw =
    if is_empty raw
    then []
    else if is_platform_id raw
    then raw
    else if is_steam_url raw && is_digits (drop 6 raw)
    then steam ++ drop 6 raw
    else if is_digits raw && leb 15 (length raw)
    then steam ++ raw
    else []

unfoldable pub normalize_platform_user_id : Bytes → Bytes
normalize_platform_user_id raw = classify (trim_by is_space raw)

-- The chain of lookups, each of which gives up with an empty text.
unfoldable pub resolve_via_unique_net_id : UniqueNetId → Bytes
resolve_via_unique_net_id u =
    if not (u.has_bp_get_unique_id || u.has_get_unique_id)
    then []
    else if not u.has_return_property
    then []
    else if not u.has_value
    then []
    else if not u.has_utility
    then []
    else if not u.has_to_string
    then []
    else if not (u.has_user_id_property && u.has_string_property)
    then []
    else elim u.text [ none ↦ [] | some s ↦ normalize_platform_user_id s ]

-- `ResolveViaUniqueNetId` under its SEH guard; a fault clears the text.
unfoldable pub guarded_unique_net_id : Option PlayerState → Bytes
guarded_unique_net_id none = []
guarded_unique_net_id (some p) =
    if p.unique_net_id.faults then [] else resolve_via_unique_net_id p.unique_net_id

unfoldable pub resolve_platform_user_id : Option PlayerState → Bytes
resolve_platform_user_id player_state =
    let account = normalize_platform_user_id (read_account_name player_state) in
    if not (is_empty account) then account else guarded_unique_net_id player_state

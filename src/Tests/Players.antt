-- ===== src/Tests/Players.antt =====
-- Players: platform ids and the roster.
use palworld_pal_crosschat.Base.{
  ℕ, ◌≡◌, refl, true, false, not, none, some, List, [], ◌∷◌, ◌==◌, if◌then◌else◌, filter_by, Bytes,
  codes, pos,
}
use palworld_pal_crosschat.Guid.{Guid}
use palworld_pal_crosschat.Engine.{no_function, UniqueNetId, PlayerState, WeakGet, live, gone}
use palworld_pal_crosschat.PlatformId.{is_digits, normalize_platform_user_id}
use palworld_pal_crosschat.PlatformId.Normal.{IsNormal, normalize_platform_user_id_lem}
use palworld_pal_crosschat.Audience.Defs.{
  AudienceTracker, new_tracker, is_xbox_platform, uids_where, snapshot,
}
use palworld_pal_crosschat.Audience.Roster.{stays, snapshot_lem}
use palworld_pal_crosschat.Audience.History.{
  Call, registers, enqueues_join, ticks, upserts, snapshots, apply_calls, IsSound, apply_calls_lem,
}
use palworld_pal_crosschat.Audience.Hooks.{enqueue_join}

abbrev digits : Bytes
digits = codes "76561198000000001"

normalize_platform_user_id_lem_example :
    IsNormal (normalize_platform_user_id (codes " Steam:7 "))
    × (normalize_platform_user_id (normalize_platform_user_id (codes " Steam:7 "))
        ≡ normalize_platform_user_id (codes " Steam:7 "))
normalize_platform_user_id_lem_example = normalize_platform_user_id_lem (codes " Steam:7 ")

digits-is_digits : is_digits digits ≡ true
unfolding is_digits
digits-is_digits = refl

abbrev no_net_id : UniqueNetId
no_net_id = record {
  has_bp_get_unique_id = false;
  has_get_unique_id = false;
  has_return_property = false;
  has_value = false;
  has_utility = false;
  has_to_string = false;
  has_user_id_property = false;
  has_string_property = false;
  text = none;
  faults = false;
}

abbrev ann_uid : Guid
ann_uid = record { a = 7; b = 0; c = 0; d = 0 }

abbrev bob_uid : Guid
bob_uid = record { a = 8; b = 0; c = 0; d = 0 }

abbrev ann : PlayerState
ann = record {
  address = 1;
  player_uid = some ann_uid;
  player_name = none;
  account_name = some (codes "gdk_5");
  guild = none;
  get_player_name = no_function;
  unique_net_id = no_net_id;
  read_faults = false;
}

-- Only the object at address 1 is still there.
abbrev world : ℕ → WeakGet PlayerState
world handle = if handle == 1 then live ann else gone

abbrev calls : List Call
calls =
    registers (some (pos 3, pos 4))
    ∷ upserts ann_uid (codes "gdk_5") (some 1)
    ∷ upserts bob_uid (codes "Steam:9") (some 2)
    ∷ enqueues_join world (some 1)
    ∷ ticks world
    ∷ snapshots world
    ∷ []

apply_calls_lem_example : IsSound (apply_calls new_tracker calls)
apply_calls_lem_example = apply_calls_lem calls

abbrev two : AudienceTracker
two =
    apply_calls new_tracker
      (upserts ann_uid (codes "gdk_5") (some 1) ∷ upserts bob_uid (codes "Steam:9") (some 2) ∷ [])

two-IsSound : IsSound two
two-IsSound =
    apply_calls_lem
      (upserts ann_uid (codes "gdk_5") (some 1) ∷ upserts bob_uid (codes "Steam:9") (some 2) ∷ [])

snapshot_lem_example :
    ((snapshot world two).0 ≡ (
      uids_where is_xbox_platform (filter_by (stays world) two.roster),
      uids_where (λ p. not (is_xbox_platform p)) (filter_by (stays world) two.roster),
    ))
    × ((snapshot world two).1.roster ≡ filter_by (stays world) two.roster)
snapshot_lem_example = snapshot_lem world two two-IsSound.0 two-IsSound.1

abbrev joining : AudienceTracker
joining = enqueue_join world new_tracker (some 1)

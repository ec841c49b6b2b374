-- ===== src/Audience/Defs.antt =====
-- The tracker's state and the operations on its roster. Each holds the mutex while it reads or writes.
use palworld_pal_crosschat.Base.{
  ℕ, Bool, true, false, not, ◌&&◌, ◌||◌, Option, none, some, List, [], ◌∷◌, if◌then◌else◌, is_some,
  length, is_empty, Bytes, starts_with, lookup, insert, erase, contains, ℤ, negsuc,
}
use palworld_pal_crosschat.Guid.{Guid, nil_guid, is_nil, format_guid}
use palworld_pal_crosschat.Engine.{PlayerState, WeakGet, safe_weak_get}
use palworld_pal_crosschat.PlatformId.{normalize_platform_user_id, gdk}

pub record RosterEntry : Type 0 where
  pub uid : Guid
  pub platform : Bytes
  pub player_state : Option ℕ
  pub has_weak : Bool

pub record PendingJoin : Type 0 where
  pub player_state : Option ℕ
  pub frames : ℕ

pub record AudienceTracker : Type 0 where
  pub roster : List (Bytes × RosterEntry)
  pub pending_joins : List PendingJoin
  pub xbox : List Guid
  pub others : List Guid
  pub registered : Bool
  pub bootstrapped : Bool
  pub hook_ids : ℤ × ℤ

abbrev pub new_tracker : AudienceTracker
new_tracker = record {
  roster = [];
  pending_joins = [];
  xbox = [];
  others = [];
  registered = false;
  bootstrapped = false;
  hook_ids = (negsuc 0, negsuc 0);
}

unfoldable pub is_xbox_platform : Bytes → Bool
is_xbox_platform platform_user_id = starts_with gdk platform_user_id

-- The loop over the roster, for the ids on one side of the test.
unfoldable pub uids_where : (Bytes → Bool) → List (Bytes × RosterEntry) → List Guid
uids_where side [] = []
uids_where side ((_, e) ∷ roster) =
    let rest = uids_where side roster in if side e.platform then e.uid ∷ rest else rest

unfoldable pub rebuild_lists : AudienceTracker → AudienceTracker
unfolding uids_where is_xbox_platform
rebuild_lists t = record t {
  xbox = uids_where is_xbox_platform t.roster;
  others = uids_where (λ p. not (is_xbox_platform p)) t.roster;
}

abbrev pub blank_entry : RosterEntry
blank_entry = record { uid = nil_guid; platform = []; player_state = none; has_weak = false }

abbrev pub entry_or_blank : Option RosterEntry → RosterEntry
entry_or_blank none = blank_entry
entry_or_blank (some e) = e

-- The entry with what the call knows; an empty platform and a null state change nothing.
unfoldable pub refresh : RosterEntry → Guid → Bytes → Option ℕ → RosterEntry
refresh e uid platform player_state =
    let named = record e {
      uid = uid;
      platform = if not (is_empty platform) then platform else e.platform;
    } in
    elim player_state [
      | none ↦ named
      | some handle ↦ record named { player_state = some handle; has_weak = true }
    ]

unfoldable pub upsert : AudienceTracker → Guid → Bytes → Option ℕ → AudienceTracker
upsert t uid platform_user_id player_state =
    if is_nil uid
    then t
    else (let key = format_guid uid in
        let platform = normalize_platform_user_id platform_user_id in
        rebuild_lists (record t {
          roster =
              insert key (refresh (entry_or_blank (lookup key t.roster)) uid platform player_state)
                t.roster;
        }))

unfoldable pub remember : AudienceTracker → Guid → Bytes → AudienceTracker
unfolding upsert
remember t uid platform_user_id = upsert t uid platform_user_id none

unfoldable pub forget : AudienceTracker → Guid → AudienceTracker
forget t uid =
    if is_nil uid
    then t
    else (let key = format_guid uid in
        if contains key t.roster
        then rebuild_lists (record t { roster = erase key t.roster })
        else t)

-- The loop of `ForgetMany`: the roster, and whether anything was erased.
unfoldable pub erase_uids :
    List (Bytes × RosterEntry) → List Guid → List (Bytes × RosterEntry) × Bool
erase_uids roster [] = (roster, false)
erase_uids roster (uid ∷ uids) =
    let key = format_guid uid in
    let skipped = is_nil uid in
    let (rest, erased) = erase_uids (if skipped then roster else erase key roster) uids in
    (rest, (not skipped && contains key roster) || erased)

unfoldable pub forget_many : AudienceTracker → List Guid → AudienceTracker
unfolding erase_uids
forget_many t uids =
    let (roster, erased) = erase_uids t.roster uids in
    if erased then rebuild_lists (record t { roster = roster }) else t

unfoldable pub is_online_player_uid : AudienceTracker → Guid → Bool
is_online_player_uid t uid = if is_nil uid then false else contains (format_guid uid) t.roster

unfoldable pub roster_size : AudienceTracker → ℕ
roster_size t = length t.roster

module _ (world : ℕ → WeakGet PlayerState) where
  -- An entry whose PlayerState was once known and is gone.
  unfoldable pub is_dead : RosterEntry → Bool
  is_dead e = e.has_weak && not (is_some (safe_weak_get world e.player_state).0)

  unfoldable pub dead_keys : List (Bytes × RosterEntry) → List Bytes
  unfolding is_dead
  dead_keys [] = []
  dead_keys ((key, e) ∷ roster) =
      let rest = dead_keys roster in if is_dead e then key ∷ rest else rest

  unfoldable pub erase_keys : List Bytes → List (Bytes × RosterEntry) → List (Bytes × RosterEntry)
  erase_keys [] roster = roster
  erase_keys (key ∷ keys) roster = erase_keys keys (erase key roster)

  unfoldable pub prune : AudienceTracker → AudienceTracker
  unfolding dead_keys erase_keys
  prune t = record t { roster = erase_keys (dead_keys t.roster) t.roster }

  unfoldable pub snapshot : AudienceTracker → (List Guid × List Guid) × AudienceTracker
  unfolding prune
  snapshot t =
      let pruned = if is_empty (dead_keys t.roster) then t else rebuild_lists (prune t) in
      ((pruned.xbox, pruned.others), pruned)

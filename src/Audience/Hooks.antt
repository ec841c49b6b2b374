-- ===== src/Audience/Hooks.antt =====
-- Joins: the hook, the queue of players whose identity is not yet readable, the one search at the
-- start, and the tick.
use palworld_pal_crosschat.Base.{
  ℕ, ◌+◌, Bool, true, false, not, ◌&&◌, ◌||◌, Option, none, some, List, [], ◌∷◌, ◌++◌, ltb, leb,
  ◌==◌, if◌then◌else◌, length, is_empty, Bytes, ℤ, pos, negsuc, leb_ℤ,
}
use palworld_pal_crosschat.Guid.{Guid, is_nil}
use palworld_pal_crosschat.Engine.{PlayerState, WeakGet, safe_weak_get, guid_or_nil, text_or_empty}
use palworld_pal_crosschat.PlatformId.{normalize_platform_user_id}
use palworld_pal_crosschat.Audience.Defs.{
  AudienceTracker, PendingJoin, rebuild_lists, upsert, prune,
}

abbrev pub join_max_wait_frames : ℕ
join_max_wait_frames = 180

abbrev pub join_soft_ready_frames : ℕ
join_soft_ready_frames = 30

abbrev pub no_hooks : ℤ × ℤ
no_hooks = (negsuc 0, negsuc 0)

-- `RegisterHook` throws (`none`) or gives two ids.
unfoldable pub register : AudienceTracker → Option (ℤ × ℤ) → AudienceTracker
register t result = if t.registered then t else elim result [
  | none ↦ record t { registered = false; hook_ids = no_hooks }
  | some (a, b) ↦ record t { hook_ids = (a, b); registered = leb_ℤ (pos 0) a || leb_ℤ (pos 0) b }
]

unfoldable pub unregister : AudienceTracker → AudienceTracker
unregister t = if not t.registered then t else record t { registered = false; hook_ids = no_hooks }

-- The text goes through a buffer of 256 bytes, with its terminator.
abbrev pub buffered_platform : Bytes → Bytes
buffered_platform norm = if not (is_empty norm) && ltb (length norm) 256 then norm else []

-- `TryReadJoinIdentity`: the id and the platform, if the read does not fault and the id is not nil.
unfoldable pub try_read_join_identity : PlayerState → Option (Guid × Bytes)
try_read_join_identity p =
    if p.read_faults
    then none
    else (let uid = guid_or_nil p.player_uid in
        if is_nil uid
        then none
        else some
            (uid, buffered_platform (normalize_platform_user_id (text_or_empty p.account_name))))

-- What the round does with one item.
pub data Verdict : Type 0 where
  dropped : Verdict
  joined : Guid → Bytes → ℕ → Verdict
  waits : Verdict

unfoldable pub judge_identity : ℕ → ℕ → Option (Guid × Bytes) → Verdict
judge_identity frames address none =
    if not (leb join_max_wait_frames frames) then waits else dropped
judge_identity frames address (some (uid, platform)) =
    let timed_out = leb join_max_wait_frames frames in
    if leb join_soft_ready_frames frames || timed_out
    then joined uid platform address
    else if not timed_out
    then waits
    else dropped

unfoldable pub judge_state : ℕ → Option PlayerState → Verdict
unfolding judge_identity
judge_state frames none = dropped
judge_state frames (some p) = judge_identity frames p.address (try_read_join_identity p)

unfoldable pub accept : AudienceTracker → Verdict → AudienceTracker
accept t dropped = t
accept t (joined uid platform handle) = upsert t uid platform (some handle)
accept t waits = t

unfoldable pub keep_waiting : PendingJoin → Verdict → List PendingJoin → List PendingJoin
keep_waiting item dropped still = still
keep_waiting item (joined _ _ _) still = still
keep_waiting item waits still = record item { frames = item.frames + 1 } ∷ still

module _ (world : ℕ → WeakGet PlayerState) where
  -- Whether a pending pointer is the player's, and the list with the pointers as `SafeWeakGet` leaves
  -- them; the search stops at the first that is.
  unfoldable pub find_pending : ℕ → List PendingJoin → Bool × List PendingJoin
  find_pending handle [] = (false, [])
  find_pending handle (item ∷ items) =
      let (object, weak) = safe_weak_get world item.player_state in
      let rest = find_pending handle items in
      elim object [
        | none ↦ (rest.0, record item { player_state = weak } ∷ rest.1)
        | some p ↦
            if p.address == handle
            then (true, item ∷ items)
            else (rest.0, record item { player_state = weak } ∷ rest.1)
      ]

  -- `EnqueueJoin`; a null state is `none`.
  unfoldable pub enqueue_join : AudienceTracker → Option ℕ → AudienceTracker
  unfolding find_pending
  enqueue_join t none = t
  enqueue_join t (some handle) =
      let (present, items) = find_pending handle t.pending_joins in
      record t {
        pending_joins =
            if present
            then items
            else items ++ record { player_state = some handle; frames = 0 } ∷ [];
      }

  -- `OnRequestJoinPlayer`, with the context's object; a null `custom_data` is `none`.
  unfoldable pub on_request_join_player : Option AudienceTracker → Option ℕ → Option AudienceTracker
  unfolding enqueue_join
  on_request_join_player none player_state = none
  on_request_join_player (some t) player_state = some (enqueue_join t player_state)

  unfoldable pub judge : PendingJoin → Verdict
  unfolding judge_state
  judge item = judge_state (item.frames + 1) (safe_weak_get world item.player_state).0

  -- The loop: the tracker with the players that joined, and the items that still wait.
  unfoldable pub process_items :
      AudienceTracker → List PendingJoin → AudienceTracker × List PendingJoin
  unfolding judge accept keep_waiting
  process_items t [] = (t, [])
  process_items t (item ∷ items) =
      let verdict = judge item in
      let (t', still) = process_items (accept t verdict) items in
      (t', keep_waiting item verdict still)

  unfoldable pub process_pending_joins : AudienceTracker → AudienceTracker
  unfolding process_items
  process_pending_joins t =
      let (t', still) = process_items (record t { pending_joins = [] }) t.pending_joins in
      record t' { pending_joins = t'.pending_joins ++ still }

  unfoldable pub tick : AudienceTracker → AudienceTracker
  unfolding process_pending_joins
  tick t = rebuild_lists (prune world (process_pending_joins t))

-- The loop over the states that the search finds, where a null state is `none`.
unfoldable pub seed : AudienceTracker → List (Option PlayerState) → AudienceTracker
seed t [] = t
seed t (none ∷ states) = seed t states
seed t (some p ∷ states) =
    seed
      (elim (try_read_join_identity p) [
        | none ↦ t
        | some (uid, platform) ↦ upsert t uid platform (some p.address)
      ])
      states

-- `TryBootstrapOnce`; the search faults (`none`) or gives a list.
unfoldable pub try_bootstrap_once :
    AudienceTracker → Option (List (Option PlayerState)) → AudienceTracker
unfolding seed
try_bootstrap_once t found = if t.bootstrapped then t else elim found [
  | none ↦ record t { bootstrapped = true }
  | some states ↦ seed (record t { bootstrapped = true }) states
]

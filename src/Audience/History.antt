-- ===== src/Audience/History.antt =====
-- Every history of calls on the tracker.
use palworld_pal_crosschat.Base.{
  ℕ, refl, true, not, Option, none, some, List, [], ◌∷◌, if_both, is_empty, Bytes, ℤ,
}
use palworld_pal_crosschat.Guid.{Guid}
use palworld_pal_crosschat.Engine.{PlayerState, WeakGet}
use palworld_pal_crosschat.Audience.Defs.{
  uids_where, PendingJoin, AudienceTracker, new_tracker, rebuild_lists, upsert, remember, forget,
  forget_many, dead_keys, snapshot,
}
use palworld_pal_crosschat.Audience.Hooks.{
  Verdict, dropped, accept, register, unregister, enqueue_join, judge, joined, waits, process_items,
  process_pending_joins, tick, seed, try_read_join_identity, try_bootstrap_once,
}
use palworld_pal_crosschat.Audience.Lists.{
  IsCurrent, upsert-IsCurrent, forget-IsCurrent, forget_many-IsCurrent, snapshot-IsCurrent,
}
use palworld_pal_crosschat.Audience.Roster.{
  IsRoster, upsert-IsRoster, forget-IsRoster, forget_many-IsRoster, prune-IsRoster,
}

-- One call, with what the game answers during it.
pub data Call : Type 0 where
  registers : Option (ℤ × ℤ) → Call
  unregisters : Call
  enqueues_join : (ℕ → WeakGet PlayerState) → Option ℕ → Call
  ticks : (ℕ → WeakGet PlayerState) → Call
  bootstraps : Option (List (Option PlayerState)) → Call
  upserts : Guid → Bytes → Option ℕ → Call
  remembers : Guid → Bytes → Call
  forgets : Guid → Call
  forgets_many : List Guid → Call
  snapshots : (ℕ → WeakGet PlayerState) → Call

unfoldable pub apply_call : AudienceTracker → Call → AudienceTracker
unfolding remember
apply_call t (registers result) = register t result
apply_call t unregisters = unregister t
apply_call t (enqueues_join world state) = enqueue_join world t state
apply_call t (ticks world) = tick world t
apply_call t (bootstraps found) = try_bootstrap_once t found
apply_call t (upserts uid platform state) = upsert t uid platform state
apply_call t (remembers uid platform) = remember t uid platform
apply_call t (forgets uid) = forget t uid
apply_call t (forgets_many uids) = forget_many t uids
apply_call t (snapshots world) = (snapshot world t).1

unfoldable pub apply_calls : AudienceTracker → List Call → AudienceTracker
unfolding apply_call
apply_calls t [] = t
apply_calls t (call ∷ calls) = apply_calls (apply_call t call) calls

abbrev pub IsSound : AudienceTracker → Type 0
IsSound t = IsRoster t.roster × IsCurrent t

upsert-IsSound :
    (t : AudienceTracker) (uid : Guid) (platform : Bytes) (state : Option ℕ)
    → IsSound t
    → IsSound (upsert t uid platform state)
upsert-IsSound t uid platform state h =
    (upsert-IsRoster t uid platform state h.0, upsert-IsCurrent t uid platform state h.1)

register-IsSound :
    (t : AudienceTracker) (result : Option (ℤ × ℤ)) → IsSound t → IsSound (register t result)
unfolding register
register-IsSound t none h = if_both IsSound t.registered _ _ h h
register-IsSound t (some (a, b)) h = if_both IsSound t.registered _ _ h h

enqueue_join-IsSound :
    (world : ℕ → WeakGet PlayerState) (t : AudienceTracker) (state : Option ℕ)
    → IsSound t
    → IsSound (enqueue_join world t state)
unfolding enqueue_join
enqueue_join-IsSound world t none h = h
enqueue_join-IsSound world t (some handle) h = h

accept-IsSound : (t : AudienceTracker) (v : Verdict) → IsSound t → IsSound (accept t v)
unfolding accept
accept-IsSound t dropped h = h
accept-IsSound t (joined uid platform handle) h = upsert-IsSound t uid platform (some handle) h
accept-IsSound t waits h = h

process_items-IsSound :
    (world : ℕ → WeakGet PlayerState) (t : AudienceTracker) (items : List PendingJoin)
    → IsSound t
    → IsSound (process_items world t items).0
unfolding process_items
process_items-IsSound world t [] h = h
process_items-IsSound world t (item ∷ items) h =
    process_items-IsSound world (accept t (judge world item)) items
      (accept-IsSound t (judge world item) h)

tick-IsSound :
    (world : ℕ → WeakGet PlayerState) (t : AudienceTracker) → IsSound t → IsSound (tick world t)
unfolding tick process_pending_joins rebuild_lists
tick-IsSound world t h =
    let done = process_items-IsSound world (record t { pending_joins = [] }) t.pending_joins h in
    (prune-IsRoster world (process_pending_joins world t) done.0, (refl, refl))

seed-IsSound :
    (t : AudienceTracker) (states : List (Option PlayerState)) → IsSound t → IsSound (seed t states)
unfolding seed
seed-IsSound t [] h = h
seed-IsSound t (none ∷ states) h = seed-IsSound t states h
seed-IsSound t (some p ∷ states) h =
    seed-IsSound (seeded (try_read_join_identity p)) states (sound (try_read_join_identity p))
  where
    seeded : Option (Guid × Bytes) → AudienceTracker
    seeded o = elim o [ none ↦ t | some (uid, platform) ↦ upsert t uid platform (some p.address) ]

    sound : (o : Option (Guid × Bytes)) → IsSound (seeded o)
    sound none = h
    sound (some (uid, platform)) = upsert-IsSound t uid platform (some p.address) h

try_bootstrap_once-IsSound :
    (t : AudienceTracker) (found : Option (List (Option PlayerState)))
    → IsSound t
    → IsSound (try_bootstrap_once t found)
unfolding try_bootstrap_once
try_bootstrap_once-IsSound t none h = if_both IsSound t.bootstrapped _ _ h h
try_bootstrap_once-IsSound t (some states) h =
    if_both IsSound t.bootstrapped _ _ h (seed-IsSound (record t { bootstrapped = true }) states h)

snapshot-IsRoster :
    (world : ℕ → WeakGet PlayerState) (t : AudienceTracker)
    → IsRoster t.roster
    → IsRoster (snapshot world t).1.roster
unfolding snapshot rebuild_lists
snapshot-IsRoster world t h =
    if_both (λ (u : AudienceTracker). IsRoster u.roster) (is_empty (dead_keys world t.roster)) _ _ h
      (prune-IsRoster world t h)

-- Each call keeps the tracker in order: entries under distinct ids, each under the text of its own id,
-- none nil, every platform in normal form, and both cached lists what a rebuild gives.
pub apply_call-IsSound :
    (t : AudienceTracker) (call : Call) → IsSound t → IsSound (apply_call t call)
unfolding apply_call
apply_call-IsSound t (registers result) h = register-IsSound t result h
apply_call-IsSound t unregisters h = unfold unregister in if_both IsSound (not t.registered) _ _ h h
apply_call-IsSound t (enqueues_join world state) h = enqueue_join-IsSound world t state h
apply_call-IsSound t (ticks world) h = tick-IsSound world t h
apply_call-IsSound t (bootstraps found) h = try_bootstrap_once-IsSound t found h
apply_call-IsSound t (upserts uid platform state) h = upsert-IsSound t uid platform state h
apply_call-IsSound t (remembers uid platform) h = upsert-IsSound t uid platform none h
apply_call-IsSound t (forgets uid) h = (forget-IsRoster t uid h.0, forget-IsCurrent t uid h.1)
apply_call-IsSound t (forgets_many uids) h =
    (forget_many-IsRoster t uids h.0, forget_many-IsCurrent t uids h.1)
apply_call-IsSound t (snapshots world) h =
    (snapshot-IsRoster world t h.0, snapshot-IsCurrent world t h.1)

apply_calls-IsSound :
    (t : AudienceTracker) (calls : List Call) → IsSound t → IsSound (apply_calls t calls)
unfolding apply_calls
apply_calls-IsSound t [] h = h
apply_calls-IsSound t (call ∷ calls) h =
    apply_calls-IsSound (apply_call t call) calls (apply_call-IsSound t call h)

-- After any calls on a new tracker, whatever the game answers, the roster holds entries under distinct
-- ids, each under the text of its own id, none nil, every platform in normal form, and both cached
-- lists are what a rebuild from the roster gives.
pub apply_calls_lem : (calls : List Call) → IsSound (apply_calls new_tracker calls)
unfolding uids_where
apply_calls_lem calls = apply_calls-IsSound new_tracker calls ((tt, tt), (refl, refl))

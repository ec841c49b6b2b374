-- ===== src/Audience/Lists.antt =====
-- The cached lists of the tracker follow its roster.
use palworld_pal_crosschat.Base.{
  ℕ, ◌≡◌, refl, not, Option, List, if_both, is_empty, Bytes, contains,
}
use palworld_pal_crosschat.Guid.{Guid, is_nil, format_guid}
use palworld_pal_crosschat.Engine.{PlayerState, WeakGet}
use palworld_pal_crosschat.Audience.Defs.{
  AudienceTracker, is_xbox_platform, uids_where, rebuild_lists, upsert, forget, erase_uids,
  forget_many, dead_keys, snapshot,
}

-- The Xbox list and the other list are what a rebuild from the roster gives.
abbrev pub IsCurrent : AudienceTracker → Type 0
IsCurrent t =
    (t.xbox ≡ uids_where is_xbox_platform t.roster)
    × (t.others ≡ uids_where (λ p. not (is_xbox_platform p)) t.roster)

rebuild_lists-IsCurrent : (t : AudienceTracker) → IsCurrent (rebuild_lists t)
unfolding rebuild_lists
rebuild_lists-IsCurrent t = (refl, refl)

pub upsert-IsCurrent :
    (t : AudienceTracker) (uid : Guid) (platform : Bytes) (state : Option ℕ)
    → IsCurrent t
    → IsCurrent (upsert t uid platform state)
unfolding upsert
upsert-IsCurrent t uid platform state h =
    if_both IsCurrent (is_nil uid) _ _ h (rebuild_lists-IsCurrent _)

pub forget-IsCurrent : (t : AudienceTracker) (uid : Guid) → IsCurrent t → IsCurrent (forget t uid)
unfolding forget
forget-IsCurrent t uid h =
    if_both IsCurrent (is_nil uid) _ _ h
      (if_both IsCurrent (contains (format_guid uid) t.roster) _ _ (rebuild_lists-IsCurrent _) h)

pub forget_many-IsCurrent :
    (t : AudienceTracker) (uids : List Guid) → IsCurrent t → IsCurrent (forget_many t uids)
unfolding forget_many
forget_many-IsCurrent t uids h =
    if_both IsCurrent (erase_uids t.roster uids).1 _ _ (rebuild_lists-IsCurrent _) h

pub snapshot-IsCurrent :
    (world : ℕ → WeakGet PlayerState) (t : AudienceTracker)
    → IsCurrent t
    → IsCurrent (snapshot world t).1
unfolding snapshot
snapshot-IsCurrent world t h =
    if_both IsCurrent (is_empty (dead_keys world t.roster)) _ _ h (rebuild_lists-IsCurrent _)

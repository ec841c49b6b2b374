-- ===== src/Audience/Roster.antt =====
-- The roster's invariant, and what a snapshot returns.
use palworld_pal_crosschat.Base.{
  ℕ, ◌≡◌, refl, ap, ◌∙◌, inl, inr, Bool, true, false, not, Option, none, some, List, [], ◌∷◌, arith,
  if◌then◌else◌, Bool-cases, if_both, All, is_empty, filter_by, Bytes, str_eq, str_eq_iff,
  str_eq_refl, lookup, erase, contains, erase_absent, IsDistinct, insert-IsDistinct,
  erase-IsDistinct, All-insert, All-erase,
}
use palworld_pal_crosschat.Guid.{Guid, is_nil, format_guid}
use palworld_pal_crosschat.Engine.{PlayerState, WeakGet}
use palworld_pal_crosschat.PlatformId.{normalize_platform_user_id}
use palworld_pal_crosschat.PlatformId.Normal.{
  IsNormal, normalize_platform_user_id-IsNormal, empty-IsNormal,
}
use palworld_pal_crosschat.Audience.Defs.{
  RosterEntry, AudienceTracker, entry_or_blank, is_xbox_platform, uids_where, rebuild_lists,
  refresh, upsert, forget, erase_uids, forget_many, is_dead, dead_keys, erase_keys, prune, snapshot,
}
use palworld_pal_crosschat.Audience.Lists.{IsCurrent}

-- An entry stands under the text of its id, which is not nil, and its platform is in normal form.
abbrev pub IsEntry : Bytes × RosterEntry → Type 0
IsEntry kv = (kv.0 ≡ format_guid kv.1.uid) × (is_nil kv.1.uid ≡ false) × IsNormal kv.1.platform

abbrev pub IsRoster : List (Bytes × RosterEntry) → Type 0
IsRoster roster = All IsEntry roster × IsDistinct roster

lookup-IsNormal :
    (key : Bytes) (roster : List (Bytes × RosterEntry))
    → All IsEntry roster
    → IsNormal (entry_or_blank (lookup key roster)).platform
unfolding lookup
lookup-IsNormal key [] h = empty-IsNormal
lookup-IsNormal key ((j, e) ∷ roster) h =
    if_both (λ o. IsNormal (entry_or_blank o).platform) (str_eq j key) (some e) (lookup key roster)
      h.0.2 (lookup-IsNormal key roster h.1)

refresh-IsEntry :
    (e : RosterEntry) (uid : Guid) (platform : Bytes) (state : Option ℕ)
    → is_nil uid ≡ false
    → IsNormal e.platform
    → IsNormal platform
    → IsEntry (format_guid uid, refresh e uid platform state)
unfolding refresh
refresh-IsEntry e uid platform none n h k =
    (refl, n, if_both IsNormal (not (is_empty platform)) platform e.platform k h)
refresh-IsEntry e uid platform (some handle) n h k =
    (refl, n, if_both IsNormal (not (is_empty platform)) platform e.platform k h)

pub upsert-IsRoster :
    (t : AudienceTracker) (uid : Guid) (platform : Bytes) (state : Option ℕ)
    → IsRoster t.roster
    → IsRoster (upsert t uid platform state).roster
unfolding upsert rebuild_lists
upsert-IsRoster t uid platform state h = elim (Bool-cases (is_nil uid)) [
  | inl e ↦ rw e h
  | inr e ↦
      let entry =
        refresh-IsEntry (entry_or_blank (lookup (format_guid uid) t.roster)) uid
          (normalize_platform_user_id platform) state e
          (lookup-IsNormal (format_guid uid) t.roster h.0)
          (normalize_platform_user_id-IsNormal platform) in
      rw e (
        All-insert IsEntry (format_guid uid) _ t.roster entry h.0,
        insert-IsDistinct (format_guid uid) _ t.roster h.1,
      )
]

erase-IsRoster :
    (key : Bytes) (roster : List (Bytes × RosterEntry))
    → IsRoster roster
    → IsRoster (erase key roster)
erase-IsRoster key roster h = (All-erase IsEntry key roster h.0, erase-IsDistinct key roster h.1)

pub forget-IsRoster :
    (t : AudienceTracker) (uid : Guid) → IsRoster t.roster → IsRoster (forget t uid).roster
unfolding forget rebuild_lists
forget-IsRoster t uid h = elim (Bool-cases (is_nil uid)) [
  | inl e ↦ rw e h
  | inr e ↦ elim (Bool-cases (contains (format_guid uid) t.roster)) [
    | inl c ↦ rw (e, c) (erase-IsRoster (format_guid uid) t.roster h)
    | inr c ↦ rw (e, c) h
  ]
]

erase_uids-IsRoster :
    (roster : List (Bytes × RosterEntry)) (uids : List Guid)
    → IsRoster roster
    → IsRoster (erase_uids roster uids).0
unfolding erase_uids
erase_uids-IsRoster roster [] h = h
erase_uids-IsRoster roster (uid ∷ uids) h =
    erase_uids-IsRoster (if is_nil uid then roster else erase (format_guid uid) roster) uids
      (if_both IsRoster (is_nil uid) _ _ h (erase-IsRoster (format_guid uid) roster h))

pub forget_many-IsRoster :
    (t : AudienceTracker) (uids : List Guid)
    → IsRoster t.roster
    → IsRoster (forget_many t uids).roster
unfolding forget_many rebuild_lists
forget_many-IsRoster t uids h =
    if_both (λ (u : AudienceTracker). IsRoster u.roster) (erase_uids t.roster uids).1 _ _
      (erase_uids-IsRoster t.roster uids h) h

module _ (world : ℕ → WeakGet PlayerState) where
  erase_keys-IsRoster :
      (keys : List Bytes) (roster : List (Bytes × RosterEntry))
      → IsRoster roster
      → IsRoster (erase_keys world keys roster)
  unfolding erase_keys
  erase_keys-IsRoster [] roster h = h
  erase_keys-IsRoster (key ∷ keys) roster h =
      erase_keys-IsRoster keys (erase key roster) (erase-IsRoster key roster h)

  pub prune-IsRoster : (t : AudienceTracker) → IsRoster t.roster → IsRoster (prune world t).roster
  unfolding prune
  prune-IsRoster t h = erase_keys-IsRoster (dead_keys world t.roster) t.roster h

  dead_keys-absent :
      (key : Bytes) (roster : List (Bytes × RosterEntry))
      → contains key roster ≡ false
      → All (λ k. str_eq key k ≡ false) (dead_keys world roster)
  unfolding dead_keys contains
  dead_keys-absent key [] h = tt
  dead_keys-absent key ((j, e) ∷ roster) h =
      let apart : str_eq key j ≡ false = ground (arith, str_eq_iff key j, str_eq_iff j key) in
      let rest = dead_keys-absent key roster (ground arith) in
      if_both (All (λ k. str_eq key k ≡ false)) (is_dead world e) _ _ (apart, rest) rest

  erase_keys-cons :
      (keys : List Bytes) (j : Bytes) (e : RosterEntry) (roster : List (Bytes × RosterEntry))
      → All (λ k. str_eq j k ≡ false) keys
      → erase_keys world keys ((j, e) ∷ roster) ≡ (j, e) ∷ erase_keys world keys roster
  unfolding erase_keys erase
  erase_keys-cons [] j e roster h = refl
  erase_keys-cons (k ∷ keys) j e roster h = rw h.0 (erase_keys-cons keys j e (erase k roster) h.1)

  abbrev pub stays : Bytes × RosterEntry → Bool
  stays kv = not (is_dead world kv.1)

  erase_first :
      (keys : List Bytes) (j : Bytes) (e : RosterEntry) (roster : List (Bytes × RosterEntry))
      → contains j roster ≡ false
      → erase_keys world (j ∷ keys) ((j, e) ∷ roster) ≡ erase_keys world keys roster
  unfolding erase_keys erase
  erase_first keys j e roster h =
      ap (erase_keys world keys) (rw (str_eq_refl j) (erase_absent j roster h))

  prune_filter :
      (roster : List (Bytes × RosterEntry))
      → IsDistinct roster
      → erase_keys world (dead_keys world roster) roster ≡ filter_by stays roster
  unfolding dead_keys
  prune_filter [] h = unfold erase_keys in refl
  prune_filter ((j, e) ∷ roster) h = elim (Bool-cases (is_dead world e)) [
    | inl d ↦ rw d (erase_first (dead_keys world roster) j e roster h.0 ∙ prune_filter roster h.1)
    | inr a ↦ rw a (
        erase_keys-cons (dead_keys world roster) j e roster (dead_keys-absent j roster h.0)
        ∙ ap (◌∷◌ (j, e)) (prune_filter roster h.1))
  ]

  none_dead :
      (roster : List (Bytes × RosterEntry))
      → is_empty (dead_keys world roster) ≡ true
      → filter_by stays roster ≡ roster
  unfolding dead_keys
  none_dead [] h = refl
  none_dead ((j, e) ∷ roster) h = elim (Bool-cases (is_dead world e)) [
    | inl d ↦ ground arith
    | inr a ↦ rw a (ap (◌∷◌ (j, e)) (none_dead roster (ground arith)))
  ]

  -- On a roster in order, with cached lists that follow it, `Snapshot` returns the ids of the entries
  -- whose weak pointer was never set or still gives a PlayerState, those on an Xbox in the first list
  -- and the rest in the second; and these entries are the new roster.
  pub snapshot_lem :
      (t : AudienceTracker)
      → IsRoster t.roster
      → IsCurrent t
      → let alive = filter_by stays t.roster in
        ((snapshot world t).0
          ≡ (uids_where is_xbox_platform alive, uids_where (λ p. not (is_xbox_platform p)) alive))
        × ((snapshot world t).1.roster ≡ alive)
  unfolding snapshot rebuild_lists prune
  snapshot_lem t h c = elim (Bool-cases (is_empty (dead_keys world t.roster))) [
    | inl e ↦ rw (e, none_dead t.roster e, c.0, c.1) (refl, refl)
    | inr e ↦ rw (e, prune_filter t.roster h.1) (refl, refl)
  ]

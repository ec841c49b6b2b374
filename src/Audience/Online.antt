-- ===== src/Audience/Online.antt =====
-- The roster as the set of the players that are online: an id is in it or not, and neither the order of
-- the entries nor their platforms and weak pointers matter.
use palworld_pal_crosschat.Base.{
  ℕ, ◌≡◌, refl, sym, ap, ◌∙◌, inl, inr, Bool, true, false, not, ◌&&◌, ◌||◌, Option, List, [], ◌∷◌,
  arith, if◌then◌else◌, Bool-cases, if_true, if_false, All, Bytes, str_eq, str_eq_iff, insert,
  erase, contains, contains-insert, contains-erase, erase_absent,
}
use palworld_pal_crosschat.Guid.{Guid, nil_guid, guid_eq, is_nil, format_guid}
use palworld_pal_crosschat.Guid.RoundTrip.{IsGuid, guid_eq_iff, format_guid-injective}
use palworld_pal_crosschat.Audience.Defs.{
  AudienceTracker, RosterEntry, rebuild_lists, upsert, forget, erase_uids, forget_many,
  is_online_player_uid,
}

pub data Change : Type 0 where
  joins : Guid → Bytes → Option ℕ → Change
  leaves : Guid → Change
  leave_together : List Guid → Change

unfoldable pub change : Change → AudienceTracker → AudienceTracker
unfolding upsert forget forget_many
change (joins uid platform state) t = upsert t uid platform state
change (leaves uid) t = forget t uid
change (leave_together uids) t = forget_many t uids

unfoldable pub run_changes : List Change → AudienceTracker → AudienceTracker
unfolding change
run_changes [] t = t
run_changes (c ∷ cs) t = run_changes cs (change c t)

-- The specification, on a set of ids.
abbrev pub IdSet : Type 0
IdSet = Guid → Bool

abbrev pub with_id : Guid → IdSet → IdSet
with_id uid s v = (guid_eq uid v && not (is_nil uid)) || s v

abbrev pub without_id : Guid → IdSet → IdSet
without_id uid s v = s v && not (guid_eq uid v)

abbrev pub without_ids : List Guid → IdSet → IdSet
without_ids [] s = s
without_ids (uid ∷ uids) s = without_ids uids (without_id uid s)

abbrev pub change_set : Change → IdSet → IdSet
change_set (joins uid _ _) s = with_id uid s
change_set (leaves uid) s = without_id uid s
change_set (leave_together uids) s = without_ids uids s

abbrev pub run_set : List Change → IdSet → IdSet
run_set [] s = s
run_set (c ∷ cs) s = run_set cs (change_set c s)

abbrev pub IsChange : Change → Type 0
IsChange (joins uid _ _) = IsGuid uid
IsChange (leaves uid) = IsGuid uid
IsChange (leave_together uids) = All IsGuid uids

-- An id that is not nil is a key of the roster.
abbrev holds_id : List (Bytes × RosterEntry) → IdSet
holds_id roster v = if is_nil v then false else contains (format_guid v) roster

str_eq-format_guid :
    (u v : Guid) → IsGuid u → IsGuid v → str_eq (format_guid u) (format_guid v) ≡ guid_eq u v
str_eq-format_guid u v hu hv = ground (
  arith,
  str_eq_iff (format_guid u) (format_guid v),
  guid_eq_iff u v,
  format_guid-injective u v hu hv,
  ap format_guid,
)

holds_id-insert :
    (u v : Guid) (e : RosterEntry) (roster : List (Bytes × RosterEntry))
    → IsGuid u
    → IsGuid v
    → is_nil u ≡ false
    → holds_id (insert (format_guid u) e roster) v ≡ with_id u (holds_id roster) v
holds_id-insert u v e roster hu hv n =
    rw (contains-insert (format_guid u) (format_guid v) e roster, str_eq-format_guid u v hu hv)
      (grind (arith, guid_eq_iff u v, guid_eq_iff u nil_guid, guid_eq_iff v nil_guid))

holds_id-erase :
    (u v : Guid) (roster : List (Bytes × RosterEntry))
    → IsGuid u
    → IsGuid v
    → holds_id (erase (format_guid u) roster) v ≡ without_id u (holds_id roster) v
holds_id-erase u v roster hu hv =
    rw (contains-erase (format_guid u) (format_guid v) roster, str_eq-format_guid u v hu hv)
      (ground arith)

-- The nil id is in no roster.
without_nil :
    (u v : Guid) (roster : List (Bytes × RosterEntry))
    → is_nil u ≡ true
    → holds_id roster v ≡ without_id u (holds_id roster) v
without_nil u v roster n =
    grind (arith, guid_eq_iff u v, guid_eq_iff u nil_guid, guid_eq_iff v nil_guid)

online-upsert :
    (t : AudienceTracker) (u v : Guid) (platform : Bytes) (state : Option ℕ)
    → IsGuid u
    → IsGuid v
    → holds_id (upsert t u platform state).roster v ≡ with_id u (holds_id t.roster) v
unfolding upsert rebuild_lists
online-upsert t u v platform state hu hv =
    let P : AudienceTracker → Type 0 =
      λ t'. holds_id t'.roster v ≡ with_id u (holds_id t.roster) v in
    elim (Bool-cases (is_nil u)) [
      | inl e ↦ if_true P (is_nil u) t _ e (ground arith)
      | inr e ↦ if_false P (is_nil u) t _ e (holds_id-insert u v _ t.roster hu hv e)
    ]

online-forget :
    (t : AudienceTracker) (u v : Guid)
    → IsGuid u
    → IsGuid v
    → holds_id (forget t u).roster v ≡ without_id u (holds_id t.roster) v
unfolding forget rebuild_lists
online-forget t u v hu hv =
    let P : AudienceTracker → Type 0 =
      λ t'. holds_id t'.roster v ≡ without_id u (holds_id t.roster) v in
    let key = format_guid u in
    let erased = holds_id-erase u v t.roster hu hv in
    elim (Bool-cases (is_nil u)) [
      | inl e ↦ if_true P (is_nil u) t _ e (without_nil u v t.roster e)
      | inr e ↦ if_false P (is_nil u) t _ e (elim (Bool-cases (contains key t.roster)) [
        | inl c ↦ if_true P (contains key t.roster) _ t c erased
        | inr c ↦
            if_false P (contains key t.roster) _ t c
              (ap (λ roster. holds_id roster v) (sym (erase_absent key t.roster c)) ∙ erased)
      ])
    ]

without_ids-same :
    (uids : List Guid) (s r : IdSet) (v : Guid)
    → s v ≡ r v
    → without_ids uids s v ≡ without_ids uids r v
without_ids-same [] s r v e = e
without_ids-same (u ∷ uids) s r v e =
    without_ids-same uids (without_id u s) (without_id u r) v (ap (λ b. b && not (guid_eq u v)) e)

online-erase_uids :
    (uids : List Guid) (roster : List (Bytes × RosterEntry)) (v : Guid)
    → All IsGuid uids
    → IsGuid v
    → holds_id (erase_uids roster uids).0 v ≡ without_ids uids (holds_id roster) v
unfolding erase_uids
online-erase_uids [] roster v hs hv = refl
online-erase_uids (u ∷ uids) roster v hs hv =
    let next = if is_nil u then roster else erase (format_guid u) roster in
    let P : List (Bytes × RosterEntry) → Type 0 =
      λ r. holds_id r v ≡ without_id u (holds_id roster) v in
    let first : P next = elim (Bool-cases (is_nil u)) [
      | inl e ↦ if_true P (is_nil u) roster _ e (without_nil u v roster e)
      | inr e ↦ if_false P (is_nil u) roster _ e (holds_id-erase u v roster hs.0 hv)
    ] in
    online-erase_uids uids next v hs.1 hv
    ∙ without_ids-same uids (holds_id next) (without_id u (holds_id roster)) v first

erase_uids-none :
    (uids : List Guid) (roster : List (Bytes × RosterEntry))
    → (erase_uids roster uids).1 ≡ false
    → (erase_uids roster uids).0 ≡ roster
unfolding erase_uids
erase_uids-none [] roster e = refl
erase_uids-none (u ∷ uids) roster e =
    let key = format_guid u in
    let next = if is_nil u then roster else erase key roster in
    let P : List (Bytes × RosterEntry) → Type 0 = λ r. r ≡ roster in
    let rest : (erase_uids next uids).1 ≡ false = ground arith in
    let absent : (not (is_nil u) && contains key roster) ≡ false = ground arith in
    let same : P next = elim (Bool-cases (is_nil u)) [
      | inl n ↦ if_true P (is_nil u) roster _ n refl
      | inr n ↦ if_false P (is_nil u) roster _ n (erase_absent key roster (ground arith))
    ] in
    erase_uids-none uids next rest ∙ same

online-forget_many :
    (t : AudienceTracker) (uids : List Guid) (v : Guid)
    → All IsGuid uids
    → IsGuid v
    → holds_id (forget_many t uids).roster v ≡ without_ids uids (holds_id t.roster) v
unfolding forget_many rebuild_lists
online-forget_many t uids v hs hv =
    let P : AudienceTracker → Type 0 =
      λ t'. holds_id t'.roster v ≡ without_ids uids (holds_id t.roster) v in
    let all_gone = online-erase_uids uids t.roster v hs hv in
    elim (Bool-cases (erase_uids t.roster uids).1) [
      | inl e ↦ if_true P (erase_uids t.roster uids).1 _ t e all_gone
      | inr e ↦
          if_false P (erase_uids t.roster uids).1 _ t e
            (ap (λ roster. holds_id roster v) (sym (erase_uids-none uids t.roster e)) ∙ all_gone)
    ]

change_set-same :
    (c : Change) (s r : IdSet) (v : Guid) → s v ≡ r v → change_set c s v ≡ change_set c r v
change_set-same (joins u _ _) s r v e = ap (λ b. (guid_eq u v && not (is_nil u)) || b) e
change_set-same (leaves u) s r v e = ap (λ b. b && not (guid_eq u v)) e
change_set-same (leave_together uids) s r v e = without_ids-same uids s r v e

run_set-same :
    (cs : List Change) (s r : IdSet) (v : Guid) → s v ≡ r v → run_set cs s v ≡ run_set cs r v
run_set-same [] s r v e = e
run_set-same (c ∷ cs) s r v e =
    run_set-same cs (change_set c s) (change_set c r) v (change_set-same c s r v e)

online-change :
    (c : Change) (t : AudienceTracker) (v : Guid)
    → IsChange c
    → IsGuid v
    → holds_id (change c t).roster v ≡ change_set c (holds_id t.roster) v
unfolding change
online-change (joins u platform state) t v h hv = online-upsert t u v platform state h hv
online-change (leaves u) t v h hv = online-forget t u v h hv
online-change (leave_together uids) t v h hv = online-forget_many t uids v h hv

-- The tracker implements a set of ids: after any joins, leaves and leaves together, a player is online
-- exactly if its id is in the set that the same changes make of the ids that were online before. The
-- nil id never gets in, and neither platforms, weak pointers nor repeated joins matter.
pub is_online_player_uid-run_set :
    (cs : List Change) (t : AudienceTracker) (v : Guid)
    → All IsChange cs
    → IsGuid v
    → is_online_player_uid (run_changes cs t) v ≡ run_set cs (is_online_player_uid t) v
unfolding is_online_player_uid run_changes
is_online_player_uid-run_set [] t v hs hv = refl
is_online_player_uid-run_set (c ∷ cs) t v hs hv =
    is_online_player_uid-run_set cs (change c t) v hs.1 hv
    ∙ run_set-same cs (holds_id (change c t).roster) (change_set c (holds_id t.roster)) v
        (online-change c t v hs.0 hv)

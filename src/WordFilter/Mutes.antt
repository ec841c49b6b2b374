-- ===== src/WordFilter/Mutes.antt =====
-- Who is muted, for how long, and how often a muted player is told.
use palworld_pal_crosschat.Base.{
  ℕ, ◌+◌, ◌-◌, ◌*◌, ◌/◌, ◌^◌, ◌≤◌, ◌<◌, ◌≡◌, refl, ◌∙◌, ◌≢◌, true, false, Option, none, some, List,
  [], ◌∷◌, arith, ltb, leb, if◌then◌else◌, Bytes, str_eq, str_eq_iff, str_eq_refl, lookup,
  lookup-insert, lookup-erase, pos,
}
use palworld_pal_crosschat.WordFilter.{
  RegexLib, MuteEntry, WordFilter, ns_per_second, ns_per_minute, int64_time, live_entry,
  find_active_mute, is_muted, mute_remaining_seconds, mute_reason, mute, notify_entry,
  try_consume_mute_notify,
}

-- The mutes as the code's promise has them: the time until which a key is muted, if it is.
abbrev pub muted_until : List (Bytes × MuteEntry) → Bytes → ℕ → Option ℕ
muted_until mutes key now = elim (lookup key mutes) [
  | none ↦ none
  | some e ↦ if leb e.until now then none else some e.until
]

module _ (lib : RegexLib) where
  -- A lookup at a time answers from the entry, and leaves the answers of every later lookup alone.
  find_active_mute_lem :
      (f : WordFilter lib) (key : Bytes) (now : ℕ)
      → key ≢ []
      → (find_active_mute lib f key now).0 ≡ elim (lookup key f.mutes) [
        | none ↦ none
        | some e ↦ if leb e.until now then none else some e
      ]
  unfolding find_active_mute live_entry
  find_active_mute_lem f [] now h = absurd (h refl)
  find_active_mute_lem f (c ∷ key) now h = ground arith

  keeps_live :
      (f : WordFilter lib) (key other : Bytes) (now later : ℕ)
      → now ≤ later
      → muted_until (find_active_mute lib f key now).1.mutes other later
        ≡ muted_until f.mutes other later
  unfolding find_active_mute live_entry
  keeps_live f [] other now later h = refl
  keeps_live f (c ∷ key) other now later h =
      ground (arith, lookup-erase (c ∷ key) other f.mutes, str_eq_iff (c ∷ key) other)

  notify-keeps :
      (f : WordFilter lib) (key other : Bytes) (interval now later : ℕ) (entry : MuteEntry)
      → lookup key f.mutes ≡ some entry
      → muted_until (notify_entry lib f key interval now (some entry)).1.mutes other later
        ≡ muted_until f.mutes other later
  unfolding notify_entry
  notify-keeps f key other interval now later entry e = ground (
    arith,
    lookup-insert key other (record entry { last_notify = now }) f.mutes,
    str_eq_iff key other,
  )

  found :
      (f : WordFilter lib) (key : Bytes) (now : ℕ) (entry : MuteEntry)
      → (find_active_mute lib f key now).0 ≡ some entry
      → lookup key (find_active_mute lib f key now).1.mutes ≡ some entry
  unfolding find_active_mute live_entry
  found f [] now entry e = cc
  found f (c ∷ key) now entry e = ground arith

  consume-keeps :
      (f : WordFilter lib) (key other : Bytes) (interval now later : ℕ)
      → now ≤ later
      → muted_until (try_consume_mute_notify lib f key interval now).1.mutes other later
        ≡ muted_until f.mutes other later
  unfolding try_consume_mute_notify
  consume-keeps f key other interval now later h =
      go (find_active_mute lib f key now).0 refl ∙ keeps_live f key other now later h
    where
      go :
          (o : Option MuteEntry)
          → (find_active_mute lib f key now).0 ≡ o
          → muted_until
              (notify_entry lib
                (find_active_mute lib f key now).1
                key
                interval
                now
                (find_active_mute lib f key now).0).1.mutes
              other
              later
            ≡ muted_until (find_active_mute lib f key now).1.mutes other later
      go none e = rw e (unfold notify_entry in refl)
      go (some entry) e = rw e (
          notify-keeps (find_active_mute lib f key now).1 key other interval now later entry
            (found f key now entry e))

  -- A player's question about mutes never changes who is muted: `IsMuted`, `MuteRemainingSeconds`,
  -- `MuteReason` and `TryConsumeMuteNotify` leave the end of every mute that has not run out as it is.
  queries_keep :
      (f : WordFilter lib) (key other : Bytes) (interval now later : ℕ)
      → now ≤ later
      → (muted_until (is_muted lib f key now).1.mutes other later ≡ muted_until f.mutes other later)
        × (muted_until (mute_remaining_seconds lib f key now).1.mutes other later
            ≡ muted_until f.mutes other later)
        × (muted_until (mute_reason lib f key now).1.mutes other later
            ≡ muted_until f.mutes other later)
        × (muted_until (try_consume_mute_notify lib f key interval now).1.mutes other later
            ≡ muted_until f.mutes other later)
  unfolding is_muted mute_remaining_seconds mute_reason
  queries_keep f key other interval now later h = (
    keeps_live f key other now later h,
    keeps_live f key other now later h,
    keeps_live f key other now later h,
    consume-keeps f key other interval now later h,
  )

  int64_time-small : (ns : ℕ) → ns < 2 ^ 63 → int64_time ns ≡ ns
  unfolding int64_time
  int64_time-small ns h = ground arith

  lookup-mute :
      (f : WordFilter lib) (key other reason : Bytes) (minutes now : ℕ)
      → key ≢ []
      → 0 < minutes
      → now + minutes * ns_per_minute < 2 ^ 63
      → lookup other (mute lib f key reason (pos minutes) now).mutes ≡ (
          if str_eq key other
          then some
              (record { until = now + minutes * ns_per_minute; reason = reason; last_notify = now })
          else lookup other f.mutes)
  unfolding mute
  lookup-mute f [] other reason minutes now k h fits = absurd (k refl)
  lookup-mute f (c ∷ key) other reason minutes now k h fits = ground (
    arith,
    lookup-insert (c ∷ key) other
        (record { until = now + minutes * ns_per_minute; reason = reason; last_notify = now })
        f.mutes,
    int64_time-small (now + minutes * ns_per_minute) fits,
  )

  -- After `Mute` of a key for a positive number of minutes at time `now`, where the end of the mute fits
  -- into 64-bit signed nanoseconds, that key is muted exactly before `now` plus those minutes, and every
  -- other key is muted exactly when it was before.
  pub is_muted-mute :
      (f : WordFilter lib) (key other reason : Bytes) (minutes now later : ℕ)
      → key ≢ []
      → other ≢ []
      → 0 < minutes
      → now + minutes * ns_per_minute < 2 ^ 63
      → (is_muted lib (mute lib f key reason (pos minutes) now) other later).0 ≡ (
          if str_eq key other
          then ltb later (now + minutes * ns_per_minute)
          else (is_muted lib f other later).0)
  unfolding is_muted
  is_muted-mute f key other reason minutes now later k o h fits = ground (
    arith,
    find_active_mute_lem (mute lib f key reason (pos minutes) now) other later o,
    find_active_mute_lem f other later o,
    lookup-mute f key other reason minutes now k h fits,
  )

  -- A muted player is told the whole seconds that are left of the mute, and never more than its length.
  mute_remaining_seconds-mute :
      (f : WordFilter lib) (key reason : Bytes) (minutes now later : ℕ)
      → key ≢ []
      → 0 < minutes
      → now + minutes * ns_per_minute < 2 ^ 63
      → now ≤ later
      → later < now + minutes * ns_per_minute
      → (s : ℕ) × ((mute_remaining_seconds lib
            (mute lib f key reason (pos minutes) now)
            key
            later).0
          ≡ some s)
        × (later + s * ns_per_second ≤ now + minutes * ns_per_minute)
        × (now + minutes * ns_per_minute < later + (s + 1) * ns_per_second)
        × (s ≤ minutes * 60)
  unfolding mute_remaining_seconds
  mute_remaining_seconds-mute f key reason minutes now later k h fits le lt = (
    (now + minutes * ns_per_minute - later) / ns_per_second,
    ground (
      arith,
      find_active_mute_lem (mute lib f key reason (pos minutes) now) key later k,
      lookup-mute f key key reason minutes now k h fits,
      str_eq_refl key,
    ),
    omega arith,
    omega arith,
    omega arith,
  )

  consume_within :
      (f : WordFilter lib) (key : Bytes) (interval now : ℕ) (entry : MuteEntry)
      → lookup key f.mutes ≡ some entry
      → 0 < entry.last_notify
      → now < entry.last_notify + interval * ns_per_second
      → entry.last_notify ≤ now
      → (try_consume_mute_notify lib f key interval now).0 ≡ false
  unfolding try_consume_mute_notify find_active_mute live_entry notify_entry
  consume_within f [] interval now entry e p lt le = refl
  consume_within f (c ∷ key) interval now entry e p lt le = ground arith

  consumed :
      (f : WordFilter lib) (key : Bytes) (interval now : ℕ)
      → (try_consume_mute_notify lib f key interval now).0 ≡ true
      → (e : MuteEntry) × (lookup key (try_consume_mute_notify lib f key interval now).1.mutes
          ≡ some e)
        × (e.last_notify ≡ now)
  unfolding try_consume_mute_notify
  consumed f key interval now h = go (find_active_mute lib f key now).0 refl
    where
      go :
          (o : Option MuteEntry)
          → (find_active_mute lib f key now).0 ≡ o
          → (e : MuteEntry) × (lookup key (try_consume_mute_notify lib f key interval now).1.mutes
              ≡ some e)
            × (e.last_notify ≡ now)
      go none e = absurd (unfold notify_entry in cc (rw e at h))
      go (some entry) e = (
        record entry { last_notify = now },
        unfold notify_entry in
            ground (
              arith,
              lookup-insert key key (record entry { last_notify = now })
                  (find_active_mute lib f key now).1.mutes,
              str_eq_refl key,
            ),
        refl,
      )

  -- A muted player is told of the mute at most once in an interval: when a notice was granted at
  -- time `now`, none is granted before `now` plus the interval.
  notify_throttled :
      (f : WordFilter lib) (key : Bytes) (interval now later : ℕ)
      → 0 < now
      → now ≤ later
      → later < now + interval * ns_per_second
      → (try_consume_mute_notify lib f key interval now).0 ≡ true
      → (try_consume_mute_notify lib
          (try_consume_mute_notify lib f key interval now).1
          key
          interval
          later).0
        ≡ false
  notify_throttled f key interval now later p le lt h =
      let (e, at_key, told) = consumed f key interval now h in
      consume_within (try_consume_mute_notify lib f key interval now).1 key interval later e at_key
        (omega arith) (omega arith) (omega arith)

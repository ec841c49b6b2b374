-- ===== src/WordFilter.antt =====
-- src/WordFilter.h and src/WordFilter.cpp: filter patterns and mutes. The regular expressions are the
-- parameter `RegexLib`; the steady clock is the argument `now`, in nanoseconds. Each method holds the
-- mutex, so it is one step from a filter to a filter.
pub mod Mutes
pub mod Matching
use palworld_pal_crosschat.Base.{
  ℕ, ◌+◌, ◌-◌, ◌*◌, ◌/◌, ◌%◌, ◌^◌, Bool, true, false, not, ◌&&◌, ◌||◌, Option, none, some, List, [],
  ◌∷◌, ltb, leb, ◌==◌, if◌then◌else◌, is_some, is_empty, Bytes, lookup, insert, erase, ℤ, pos,
  pos_part, leb_ℤ, at_least,
}
use palworld_pal_crosschat.Config.Types.{FilterPatternConfig, Config}

-- `compile` gives `none` where std::regex throws regex_error, and `search` where regex_search throws.
pub record RegexLib : Type 1 where
  pub Regex : Type 0
  pub compile : Bytes → Option Regex
  pub search : Bytes → Regex → Option Bool

pub record FilterHit : Type 0 where
  pub pattern_source : Bytes
  pub mute_minutes : ℤ
  pub mute_message : Bytes

pub record MuteEntry : Type 0 where
  pub until : ℕ
  pub reason : Bytes
  pub last_notify : ℕ

abbrev pub ns_per_second : ℕ
ns_per_second = 1_000_000_000

abbrev pub ns_per_minute : ℕ
ns_per_minute = 60_000_000_000

-- A time point in 64-bit signed nanoseconds, with the wrap-around. A negative one is before every
-- reading of the clock, like 0.
unfoldable pub int64_time : ℕ → ℕ
int64_time ns = let wrapped = ns % 2 ^ 64 in if ltb wrapped (2 ^ 63) then wrapped else 0

module _ (lib : RegexLib) where
  open lib use {Regex, compile, search}

  pub record CompiledPattern : Type 0 where
    pub re : Regex
    pub source : Bytes
    pub mute_minutes : ℤ
    pub mute_message : Bytes

  pub record WordFilter : Type 0 where
    pub mute_log_webhook : Bytes
    pub initial_mute_notification : Bytes
    pub active_mute_notification : Bytes
    pub patterns : List CompiledPattern
    pub mutes : List (Bytes × MuteEntry)

  -- The loop of the constructor: empty and invalid patterns are skipped.
  unfoldable pub compile_patterns : List FilterPatternConfig → List CompiledPattern
  compile_patterns [] = []
  compile_patterns (entry ∷ entries) =
      let rest = compile_patterns entries in
      if is_empty entry.pattern then rest else elim (compile entry.pattern) [
        | none ↦ rest
        | some re ↦
            record {
              re = re;
              source = entry.pattern;
              mute_minutes = at_least (pos 0) entry.mute_minutes;
              mute_message = entry.mute_message;
            }
            ∷ rest
      ]

  unfoldable pub new_filter : Config → WordFilter
  unfolding compile_patterns
  new_filter config = record {
    mute_log_webhook = config.mute_log_webhook;
    initial_mute_notification = config.initial_mute_notification;
    active_mute_notification = config.active_mute_notification;
    patterns = compile_patterns config.filter_patterns;
    mutes = [];
  }

  unfoldable pub active : WordFilter → Bool
  active f = not (is_empty f.patterns)

  -- The entry found, unless it has run out: then it is erased.
  unfoldable pub live_entry :
      WordFilter → Bytes → ℕ → Option MuteEntry → Option MuteEntry × WordFilter
  live_entry f key now none = (none, f)
  live_entry f key now (some entry) =
      if leb entry.until now
      then (none, record f { mutes = erase key f.mutes })
      else (some entry, f)

  unfoldable pub find_active_mute : WordFilter → Bytes → ℕ → Option MuteEntry × WordFilter
  unfolding live_entry
  find_active_mute f key now =
      if is_empty key then (none, f) else live_entry f key now (lookup key f.mutes)

  unfoldable pub is_muted : WordFilter → Bytes → ℕ → Bool × WordFilter
  is_muted f key now = let (entry, f') = find_active_mute f key now in (is_some entry, f')

  abbrev pub remaining_seconds : ℕ → Option MuteEntry → Option ℕ
  remaining_seconds now none = none
  remaining_seconds now (some entry) = some ((entry.until - now) / ns_per_second)

  -- The remaining time is not negative, so the cast rounds down and no test fails.
  unfoldable pub mute_remaining_seconds : WordFilter → Bytes → ℕ → Option ℕ × WordFilter
  mute_remaining_seconds f key now =
      let (entry, f') = find_active_mute f key now in (remaining_seconds now entry, f')

  abbrev pub reason_of : Option MuteEntry → Bytes
  reason_of none = []
  reason_of (some entry) = entry.reason

  unfoldable pub mute_reason : WordFilter → Bytes → ℕ → Bytes × WordFilter
  mute_reason f key now = let (entry, f') = find_active_mute f key now in (reason_of entry, f')

  -- Whether regex_search succeeds; a throw is swallowed.
  abbrev pub hits : Bytes → Regex → Bool
  hits text re = elim (search text re) [ none ↦ false | some b ↦ b ]

  unfoldable pub first_hit : Bytes → List CompiledPattern → Option FilterHit
  first_hit text [] = none
  first_hit text (p ∷ ps) =
      let rest = first_hit text ps in
      if hits text p.re
      then some (record {
        pattern_source = p.source;
        mute_minutes = p.mute_minutes;
        mute_message = p.mute_message;
      })
      else rest

  unfoldable pub find_match : WordFilter → Bytes → Option FilterHit
  unfolding first_hit
  find_match f message =
      if is_empty message || is_empty f.patterns then none else first_hit message f.patterns

  unfoldable pub mute : WordFilter → Bytes → Bytes → ℤ → ℕ → WordFilter
  mute f key reason minutes now = if is_empty key || leb_ℤ minutes (pos 0) then f else record f {
    mutes =
        insert key
          (record {
            until = int64_time (now + pos_part minutes * ns_per_minute);
            reason = reason;
            last_notify = now;
          })
          f.mutes;
  }

  -- The entry found is notified, unless it was within the interval.
  unfoldable pub notify_entry : WordFilter → Bytes → ℕ → ℕ → Option MuteEntry → Bool × WordFilter
  notify_entry f key interval now none = (false, f)
  notify_entry f key interval now (some entry) =
      if not (entry.last_notify == 0) && ltb (now - entry.last_notify) (interval * ns_per_second)
      then (false, f)
      else (true, record f { mutes = insert key (record entry { last_notify = now }) f.mutes })

  unfoldable pub try_consume_mute_notify : WordFilter → Bytes → ℕ → ℕ → Bool × WordFilter
  unfolding notify_entry
  try_consume_mute_notify f key interval now =
      let (entry, f') = find_active_mute f key now in notify_entry f' key interval now entry

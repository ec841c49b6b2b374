-- ===== src/Exceptions.antt =====
-- The catch clauses of `OnEnterChatReceive` in src/ChatCapture.cpp and of `Drain` in src/ChatInject.cpp,
-- which write a line to the log at most once in 60 seconds. The clock is in nanoseconds.
use palworld_pal_crosschat.Base.{
  ℕ, ◌+◌, ◌-◌, ◌≤◌, ◌<◌, ◌≡◌, refl, subst, ◌⊎◌, inl, inr, Option, List, [], ◌∷◌, arith, ltb,
  if◌then◌else◌, Bool-cases, if_true, if_false, All, Bytes,
}

-- How the call in a `try` block ends, and the state that it leaves: it returns, or throws an exception
-- with a text, or something else.
pub data Attempt (S : Type 0) : Type 0 where
  returned : S → Attempt S
  thrown : Option Bytes → S → Attempt S

-- The time of the last line, which is 0 at first, and the lines written, the newest first.
pub record ExceptionLog : Type 0 where
  pub last : ℕ
  pub lines : List (ℕ × Option Bytes)

abbrev pub empty_log : ExceptionLog
empty_log = record { last = 0; lines = [] }

abbrev pub log_interval : ℕ
log_interval = 60_000_000_000

unfoldable pub log_exception : ℕ → Option Bytes → ExceptionLog → ExceptionLog
log_exception now what log =
    if ltb log_interval (now - log.last)
    then record { last = now; lines = (now, what) ∷ log.lines }
    else log

-- The try block with its catch clauses, where `now` is the time that a clause reads.
unfoldable pub catch_all : {S : Type 0} → ℕ → Attempt S → ExceptionLog → S × ExceptionLog
unfolding log_exception
catch_all now (returned s) log = (s, log)
catch_all now (thrown what s) log = (s, log_exception now what log)

-- The line before all others has the time 0.
abbrev pub newest : List (ℕ × Option Bytes) → ℕ
newest [] = 0
newest ((t, _) ∷ _) = t

-- Each line is more than 60 seconds behind the line before it.
abbrev pub IsSpaced : List (ℕ × Option Bytes) → Type 0
IsSpaced [] = Unit
IsSpaced ((t, _) ∷ lines) = (newest lines + log_interval < t) × IsSpaced lines

-- A throw at the time `t` is within 60 seconds behind a line, or within the first 60 seconds.
abbrev pub IsCovered : List (ℕ × Option Bytes) → ℕ → Type 0
IsCovered [] t = t ≤ log_interval
IsCovered ((l, _) ∷ lines) t = ((l ≤ t) × (t ≤ l + log_interval)) ⊎ IsCovered lines t

-- A log at a time, with the times of the throws so far.
pub record IsThrottled (now : ℕ) (throws : List ℕ) (log : ExceptionLog) : Type 0 where
  pub follows : log.last ≡ newest log.lines
  pub past : log.last ≤ now
  pub spaced : IsSpaced log.lines
  pub covered : All (IsCovered log.lines) throws

pub empty_log-IsThrottled : IsThrottled 0 [] empty_log
empty_log-IsThrottled = record { follows = refl; past = omega arith; spaced = tt; covered = tt }

IsCovered-more :
    (line : ℕ × Option Bytes) (lines : List (ℕ × Option Bytes)) (throws : List ℕ)
    → All (IsCovered lines) throws
    → All (IsCovered (line ∷ lines)) throws
IsCovered-more line lines [] h = tt
IsCovered-more line lines (t ∷ throws) (h, hs) = (inr h, IsCovered-more line lines throws hs)

IsCovered-newest :
    (now : ℕ) (lines : List (ℕ × Option Bytes))
    → newest lines ≤ now
    → now ≤ newest lines + log_interval
    → IsCovered lines now
IsCovered-newest now [] past near = near
IsCovered-newest now ((t, _) ∷ lines) past near = inl (past, near)

log_exception-IsThrottled :
    (before now : ℕ) (what : Option Bytes) (throws : List ℕ) (log : ExceptionLog)
    → before ≤ now
    → IsThrottled before throws log
    → IsThrottled now (now ∷ throws) (log_exception now what log)
unfolding log_exception
log_exception-IsThrottled before now what throws log later w =
    elim (Bool-cases (ltb log_interval (now - log.last))) [
      | inl e ↦
          if_true (IsThrottled now (now ∷ throws)) (ltb log_interval (now - log.last)) _ log e
            (record {
              follows = refl;
              past = omega arith;
              spaced = (subst (λ l. l + log_interval < now) w.follows (ground arith), w.spaced);
              covered = (
                inl (omega arith, omega arith),
                IsCovered-more (now, what) log.lines throws w.covered,
              );
            })
      | inr e ↦
          if_false (IsThrottled now (now ∷ throws)) (ltb log_interval (now - log.last)) _ log e
            (record {
              follows = w.follows;
              past = ground (arith, w.past);
              spaced = w.spaced;
              covered = (
                IsCovered-newest now log.lines (ground (arith, w.past, w.follows))
                    (ground (arith, w.past, w.follows)),
                w.covered,
              );
            })
    ]

IsThrottled-later :
    (before now : ℕ) (throws : List ℕ) (log : ExceptionLog)
    → before ≤ now
    → IsThrottled before throws log
    → IsThrottled now throws log
IsThrottled-later before now throws log later w = record {
  follows = w.follows;
  past = ground (arith, w.past);
  spaced = w.spaced;
  covered = w.covered;
}

-- The times of the throws, with that of an attempt.
abbrev pub with_throw : {S : Type 0} → ℕ → Attempt S → List ℕ → List ℕ
with_throw now (returned s) throws = throws
with_throw now (thrown what s) throws = now ∷ throws

pub catch_all-IsThrottled :
    {S : Type 0} (before now : ℕ) (a : Attempt S) (throws : List ℕ) (log : ExceptionLog)
    → before ≤ now
    → IsThrottled before throws log
    → IsThrottled now (with_throw now a throws) (catch_all now a log).1
unfolding catch_all
catch_all-IsThrottled before now (returned s) throws log later w =
    IsThrottled-later before now throws log later w
catch_all-IsThrottled before now (thrown what s) throws log later w =
    log_exception-IsThrottled before now what throws log later w

-- ===== src/ChatInject/Circuit.antt =====
-- When `CanInjectNow` lets lines through.
use palworld_pal_crosschat.Base.{
  ℕ, ◌+◌, ◌-◌, ◌≤◌, ◌<◌, ◌≡◌, ◌⊎◌, true, Option, none, some, ltb, if◌then◌else◌, is_some, ℤ, pos,
  ltb_ℤ,
}
use palworld_pal_crosschat.Engine.{WeakGet, safe_weak_get}
use palworld_pal_crosschat.ChatInject.{ChatInject}
use palworld_pal_crosschat.ChatInject.Ready.{
  Guarded, completes, Candidate, find_game_state_seh, inject_warmup, inject_ramp, find_game_state,
}

-- The most lines of one tick: one while the world has been ready for less than 60 seconds, then the
-- configured number, or one where that is not positive.
abbrev pub limit_at : ℕ → ℤ → ℤ
limit_at elapsed configured_max =
    if ltb elapsed inject_ramp
    then pos 1
    else if ltb_ℤ (pos 0) configured_max
    then configured_max
    else pos 1

-- What a tick that is allowed knows of the time at which the world was ready.
abbrev pub IsAllowed : ℕ → ℤ → ℕ → ℤ → Type 0
IsAllowed now configured_max ready_at limit =
    (0 < ready_at)
    × (ready_at + inject_warmup ≤ now)
    × (limit ≡ limit_at (now - ready_at) configured_max)

-- The cached game state is alive, or a search found an object of which every guarded read succeeded.
abbrev pub IsGuarded : (ℕ → WeakGet ℕ) → Guarded (Option Candidate) → Option ℕ → Type 0
IsGuarded get candidate cached =
    (is_some (safe_weak_get get cached).0 ≡ true)
    ⊎ ((o : Candidate) × (candidate ≡ completes (some o))
        × (o.class_private ≡ completes true)
        × (o.vtable ≡ completes true)
        × (o.weak ≡ completes true))

-- What ResolveGameState gives, by what the weak pointer gave.
abbrev resolved_by : Option ℕ → Guarded (Option Candidate) → ChatInject → Option ℕ × ChatInject
resolved_by (some object) candidate i = (some object, i)
resolved_by none candidate i =
    find_game_state (find_game_state_seh candidate) (record i { game_state = none })

-- ===== src/ChatInject/Ready.antt =====
-- `ResolveGameState`, `TripInjectCircuit` and `CanInjectNow`. What the cached weak pointer gives and
-- what FindFirstOf gives are arguments; the clock is in nanoseconds.
use palworld_pal_crosschat.Base.{
  ℕ, ◌+◌, ◌-◌, ◌*◌, Bool, true, false, not, Option, none, some, ltb, leb, ◌==◌, if◌then◌else◌,
  is_some, ℤ, pos, ltb_ℤ,
}
use palworld_pal_crosschat.Engine.{WeakGet, safe_weak_get}
use palworld_pal_crosschat.WordFilter.{ns_per_second}
use palworld_pal_crosschat.ChatInject.{ChatInject}

-- What a read under an SEH guard does.
pub data Guarded (A : Type 0) : Type 0 where
  completes : A → Guarded A
  crashes : Guarded A

-- An object that FindFirstOf gives, by what the reads of it do: of its class and of its vtable, where
-- a pointer that is not null is `true`, and whether a weak pointer to it gives it back.
pub record Candidate : Type 0 where
  pub handle : ℕ
  pub class_private : Guarded Bool
  pub vtable : Guarded Bool
  pub weak : Guarded Bool

abbrev pub inject_warmup : ℕ
inject_warmup = 15 * ns_per_second

abbrev pub inject_ramp : ℕ
inject_ramp = 60 * ns_per_second

unfoldable pub trip_inject_circuit : ChatInject → ChatInject
trip_inject_circuit i =
    if i.inject_circuit_open then i else record i { inject_circuit_open = true; game_state = none }

abbrev pub touch : Candidate → Guarded Bool → Guarded Bool → Guarded (Option Candidate)
touch o (completes true) (completes true) = completes (some o)
touch o (completes true) (completes false) = completes none
touch o (completes true) crashes = crashes
touch o (completes false) vtable = completes none
touch o crashes vtable = crashes

-- `FindGameStateSeh`, from what FindFirstOf does: a fault, a null pointer or an object.
unfoldable pub find_game_state_seh : Guarded (Option Candidate) → Guarded (Option Candidate)
find_game_state_seh (completes (some o)) = touch o o.class_private o.vtable
find_game_state_seh (completes none) = completes none
find_game_state_seh crashes = crashes

-- `CacheWeakSeh`: the object that the weak pointer gives, and a null pointer after a fault.
unfoldable pub cache_weak_seh : Candidate → Option ℕ
cache_weak_seh o = elim o.weak [
  | crashes ↦ none
  | completes alive ↦ if alive then some o.handle else none
]

unfoldable pub find_game_state : Guarded (Option Candidate) → ChatInject → Option ℕ × ChatInject
unfolding trip_inject_circuit cache_weak_seh
find_game_state crashes i =
    let counted = record i { find_faults = i.find_faults + 1 } in
    (none, if leb 3 counted.find_faults then trip_inject_circuit counted else counted)
find_game_state (completes none) i = (none, i)
find_game_state (completes (some o)) i =
    let cached = cache_weak_seh o in (cached, record i { game_state = cached })

unfoldable pub resolve_game_state :
    (ℕ → WeakGet ℕ) → Guarded (Option Candidate) → ChatInject → Option ℕ × ChatInject
unfolding find_game_state find_game_state_seh
resolve_game_state get candidate i =
    let cached = (safe_weak_get get i.game_state).0 in
    elim cached [
      | some object ↦ (some object, i)
      | none ↦ find_game_state (find_game_state_seh candidate) (record i { game_state = none })
    ]

-- The part behind a game state that was found: whether to inject, and how many lines.
unfoldable pub inject_limit : ℕ → ℤ → ChatInject → (Bool × ℤ) × ChatInject
inject_limit now configured_max i =
    let ready = if i.world_ready_at == 0 then record i { world_ready_at = now } else i in
    let elapsed = now - ready.world_ready_at in
    if ltb elapsed inject_warmup
    then ((false, pos 0), ready)
    else (let cap = if ltb_ℤ (pos 0) configured_max then configured_max else pos 1 in
        ((true, if ltb elapsed inject_ramp then pos 1 else cap), ready))

unfoldable pub can_inject_now :
    (ℕ → WeakGet ℕ) → Guarded (Option Candidate) → ℕ → ℤ → ChatInject → (Bool × ℤ) × ChatInject
unfolding resolve_game_state inject_limit
can_inject_now get candidate now configured_max i =
    if i.inject_circuit_open
    then ((false, pos 0), i)
    else (let (state, i') = resolve_game_state get candidate i in
        if not (is_some state) then ((false, pos 0), i') else inject_limit now configured_max i')

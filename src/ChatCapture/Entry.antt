-- ===== src/ChatCapture/Entry.antt =====
-- `OnEnterChatReceive`, which the engine calls, and the histories of its calls.
use palworld_pal_crosschat.Base.{
  ℕ, ◌≤◌, ◌≡◌, refl, subst, inl, inr, Option, none, some, List, [], ◌∷◌, Option-cases, Bytes,
}
use palworld_pal_crosschat.Exceptions.{
  Attempt, returned, thrown, ExceptionLog, empty_log, catch_all, with_throw, IsThrottled,
  empty_log-IsThrottled, catch_all-IsThrottled,
}
use palworld_pal_crosschat.Config.Types.{Config}
use palworld_pal_crosschat.WordFilter.{RegexLib}
use palworld_pal_crosschat.ChatCapture.Hook.{HookContext}
use palworld_pal_crosschat.ChatCapture.State.{ChatCapture}
use palworld_pal_crosschat.ChatCapture.Stages.{HookClock}
use palworld_pal_crosschat.ChatCapture.Handle.{handle_hook}

-- One call of the hook. `stopped_by` is `none` where HandleHook comes to its end; an exception leaves
-- the parts of the state that it leaves, and has a text if it is a std::exception.
pub record HookCall (lib : RegexLib) : Type 0 where
  pub clock : HookClock
  pub caught_at : ℕ
  pub context : HookContext
  pub stopped_by : Option (Option Bytes × (ChatCapture lib × HookContext))

module _ {lib : RegexLib} (reencode : Bytes → Bytes) (config : Config) where
  unfoldable pub attempt_hook :
      HookCall lib → ChatCapture lib → Attempt (ChatCapture lib × HookContext)
  unfolding handle_hook
  attempt_hook call c = elim call.stopped_by [
    | none ↦ returned (handle_hook reencode config call.clock c call.context)
    | some (what, s) ↦ thrown what s
  ]

  -- A null `custom_data` is `none`.
  unfoldable pub on_enter_chat_receive :
      HookCall lib
      → Option (ChatCapture lib)
      → ExceptionLog
      → (Option (ChatCapture lib) × HookContext) × ExceptionLog
  unfolding attempt_hook catch_all
  on_enter_chat_receive call none log = ((none, call.context), log)
  on_enter_chat_receive call (some c) log =
      let ((c', context), log') = catch_all call.caught_at (attempt_hook call c) log in
      ((some c', context), log')

  -- The calls in order.
  unfoldable pub run_hooks :
      List (HookCall lib)
      → Option (ChatCapture lib)
      → ExceptionLog
      → Option (ChatCapture lib) × ExceptionLog
  unfolding on_enter_chat_receive
  run_hooks [] self log = (self, log)
  run_hooks (call ∷ calls) self log =
      let ((self1, context), log1) = on_enter_chat_receive call self log in
      run_hooks calls self1 log1

module _ {lib : RegexLib} where
  -- Behind each other in time.
  abbrev pub IsOrdered : ℕ → List (HookCall lib) → Type 0
  IsOrdered before [] = Unit
  IsOrdered before (call ∷ calls) = (before ≤ call.caught_at) × IsOrdered call.caught_at calls

  abbrev pub last_time : ℕ → List (HookCall lib) → ℕ
  last_time before [] = before
  last_time before (call ∷ calls) = last_time call.caught_at calls

  -- The times of the throws, the newest first, in front of those before.
  abbrev pub throws_of : List ℕ → List (HookCall lib) → List ℕ
  throws_of before [] = before
  throws_of before (call ∷ calls) =
      throws_of (elim call.stopped_by [ none ↦ before | some _ ↦ call.caught_at ∷ before ]) calls

  module _ (reencode : Bytes → Bytes) (config : Config) where
    attempt_hook-throws :
        (call : HookCall lib) (c : ChatCapture lib) (throws : List ℕ)
        → with_throw call.caught_at (attempt_hook reencode config call c) throws
          ≡ (elim call.stopped_by [ none ↦ throws | some _ ↦ call.caught_at ∷ throws ])
    unfolding attempt_hook
    attempt_hook-throws call c throws = elim (Option-cases call.stopped_by) [
      | inl e ↦ rw e refl
      | inr (s, e) ↦ rw e refl
    ]

    run_hooks-from :
        (calls : List (HookCall lib)) (c : ChatCapture lib) (before : ℕ) (throws : List ℕ)
        (log : ExceptionLog)
        → IsOrdered before calls
        → IsThrottled before throws log
        → IsThrottled
            (last_time before calls)
            (throws_of throws calls)
            (run_hooks reencode config calls (some c) log).1
    unfolding run_hooks on_enter_chat_receive
    run_hooks-from [] c before throws log ordered w = w
    run_hooks-from (call ∷ calls) c before throws log (later, ordered) w =
        let ended = attempt_hook reencode config call c in
        let ((c', context), log') = catch_all call.caught_at ended log in
        run_hooks-from calls c' call.caught_at _ log' ordered (
          subst (λ all. IsThrottled call.caught_at all log') (attempt_hook-throws call c throws)
            (catch_all-IsThrottled before call.caught_at ended throws log later w))

-- Over any calls of the hook, in the order of their times: each line in the log is more than 60 seconds
-- behind the line before it and behind the start of the clock, and each exception that HandleHook
-- throws is caught within 60 seconds behind a line or within the first 60 seconds of the clock.
pub run_hooks-IsThrottled :
    (lib : RegexLib) (reencode : Bytes → Bytes) (config : Config) (calls : List (HookCall lib))
    (c : ChatCapture lib)
    → IsOrdered 0 calls
    → IsThrottled
        (last_time 0 calls)
        (throws_of [] calls)
        (run_hooks reencode config calls (some c) empty_log).1
run_hooks-IsThrottled lib reencode config calls c ordered =
    run_hooks-from reencode config calls c 0 [] empty_log ordered empty_log-IsThrottled

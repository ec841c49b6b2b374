-- ===== src/DbWorker/Sleep.antt =====
-- `SleepInterruptible` of src/DbWorker.cpp, in milliseconds, and the waits that `ThreadMain` makes of it.
use palworld_pal_crosschat.Base.{
  ℕ, zero, suc, ◌+◌, ◌-◌, ◌*◌, ◌≤◌, ◌<◌, min, ◌≡◌, refl, subst, inl, inr, Bool, true, false, not,
  List, [], ◌∷◌, arith, Bool-cases, All, length, ℤ, pos, pos_part,
}
use mathlib.Core.WellFounded.{Acc}
use palworld_pal_crosschat.Config.Types.{Config}
use palworld_pal_crosschat.DbWorker.Mysql.{Mysql}
use palworld_pal_crosschat.DbWorker.State.{at_top, backing_off, stopped, DbWorker}
use palworld_pal_crosschat.DbWorker.Worker.{Outcome, step, step_at, stop_thread, back_off, waited}

abbrev pub slice : ℕ
slice = 50

-- What a wait returns, and the slices that it slept, in order.
pub record Sleep : Type 0 where
  pub completed : Bool
  pub slices : List ℕ

abbrev pub sum : List ℕ → ℕ
sum [] = 0
sum (x ∷ xs) = x + sum xs

unfoldable pub acc_below : (n m : ℕ) → m < n → Acc ◌<◌ m
acc_below zero m h = elim h [ ]
acc_below (suc n) m h = Acc.intro m (λ k below. acc_below n k (omega arith))

unfoldable pub lt_acc : (n : ℕ) → Acc ◌<◌ n
unfolding acc_below
lt_acc n = acc_below (suc n) n (omega arith)

pub shorter : (r : ℕ) → suc r - min (suc r) slice < suc r
shorter r = ground arith

abbrev pub asleep : ℕ → Sleep → Sleep
asleep step rest = record rest { slices = step ∷ rest.slices }

-- `stop n` is what the stop token answers when it is asked after `n` slices.
module _ (stop : ℕ → Bool) where
  -- The loop after `n` slices, which goes on while time remains.
  unfoldable pub sleep_loop : ℕ → (remaining : ℕ) → Acc ◌<◌ remaining → Sleep
  sleep_loop n zero _ = record { completed = not (stop n); slices = [] }
  sleep_loop n (suc r) (Acc.intro _ inner) = elim (stop n) [
    | true ↦ record { completed = false; slices = [] }
    | false ↦
        asleep (min (suc r) slice)
          (sleep_loop (suc n) (suc r - min (suc r) slice) (inner _ (shorter r)))
  ]

  -- A total that is not positive sleeps no slice.
  unfoldable pub sleep_interruptible : ℤ → Sleep
  unfolding sleep_loop
  sleep_interruptible total = sleep_loop 0 (pos_part total) (lt_acc (pos_part total))

-- What a wait that began after `n` slices did.
pub record IsWait (stop : ℕ → Bool) (n total : ℕ) (s : Sleep) : Type 0 where
  pub undisturbed : (i : ℕ) → i < length s.slices → stop (n + i) ≡ false
  pub answer : s.completed ≡ not (stop (n + length s.slices))
  pub short : All (λ x. (0 < x) × (x ≤ slice)) s.slices
  pub within : sum s.slices ≤ total
  pub whole : s.completed ≡ true → sum s.slices ≡ total
  pub few : length s.slices * slice < total + slice

module _ (stop : ℕ → Bool) where
  undisturbed_suc :
      (n k : ℕ)
      → stop n ≡ false
      → ((i : ℕ) → i < k → stop (suc n + i) ≡ false)
      → (i : ℕ) → i < suc k
      → stop (n + i) ≡ false
  undisturbed_suc n k quiet later zero below = subst (λ m. stop m ≡ false) (omega arith) quiet
  undisturbed_suc n k quiet later (suc i) below =
      subst (λ m. stop m ≡ false) (omega arith) (later i (omega arith))

  stays :
      (n r : ℕ) (s : Sleep)
      → stop n ≡ false
      → IsWait stop (suc n) (suc r - min (suc r) slice) s
      → IsWait stop n (suc r) (asleep (min (suc r) slice) s)
  stays n r s quiet w = record {
    undisturbed = undisturbed_suc n (length s.slices) quiet w.undisturbed;
    answer = subst (λ m. s.completed ≡ not (stop m)) (omega arith) w.answer;
    short = (ground arith, w.short);
    within = ground (arith, w.within);
    whole = λ e. ground (arith, w.whole e);
    few = ground (arith, w.few);
  }

  ended : (n : ℕ) → stop n ≡ true → false ≡ not (stop (n + 0))
  ended n e = subst (λ m. false ≡ not (stop m)) {x = n} (omega arith) (rw e refl)

  sleep_loop-IsWait :
      (n remaining : ℕ) (acc : Acc ◌<◌ remaining)
      → IsWait stop n remaining (sleep_loop stop n remaining acc)
  unfolding sleep_loop
  sleep_loop-IsWait n zero acc = record {
    undisturbed = λ i below. elim below [ ];
    answer = subst (λ m. not (stop n) ≡ not (stop m)) (omega arith) refl;
    short = tt;
    within = omega arith;
    whole = λ _. refl;
    few = omega arith;
  }
  sleep_loop-IsWait n (suc r) (Acc.intro _ inner) = elim (Bool-cases (stop n)) [
    | inl e ↦
        rw (sleep_loop, e)
          (record {
            undisturbed = λ i below. elim below [ ];
            answer = ended n e;
            short = tt;
            within = omega arith;
            whole = λ f. cc;
            few = omega arith;
          })
    | inr e ↦
        rw (sleep_loop, e)
          (stays n r _ e
            (sleep_loop-IsWait (suc n) (suc r - min (suc r) slice) (inner _ (shorter r))))
  ]

-- The sleep of `ThreadMain` behind a failure, with what the thread does then.
unfoldable pub wait_backoff :
    {lib : Mysql} → (ℕ → Bool) → Config → ℕ → DbWorker lib → Sleep × Outcome lib
unfolding sleep_interruptible step_at
wait_backoff stop config now w =
    let s = sleep_interruptible stop (pos (pos_part w.backoff_sec * 1000)) in
    (s, step_at config backing_off (not s.completed) now w)

-- The thread goes on behind a wait that was completed, and otherwise it stops.
abbrev pub GoesOn : {lib : Mysql} → Bool → Outcome lib → ℤ → Type 0
GoesOn completed (w, deeds) backoff =
    (completed ≡ true → (w.phase ≡ at_top) × (deeds ≡ waited backoff ∷ []))
    × (completed ≡ false → (w.phase ≡ stopped) × (deeds ≡ []))

goes_on :
    {lib : Mysql} (config : Config) (now : ℕ) (w : DbWorker lib) (completed : Bool)
    → GoesOn completed (step_at config backing_off (not completed) now w) w.backoff_sec
unfolding step_at stop_thread back_off
goes_on config now w true = (λ _. (refl, refl), λ e. cc)
goes_on config now w false = (λ e. cc, λ _. (refl, refl))

-- The wait behind a failure asks the stop token before every slice and at its end. It returns false at
-- the first reading that sees a stop, and the thread then ends; otherwise it sleeps the whole backoff,
-- in slices of at most 50 ms, and the thread starts its loop again.
pub wait_backoff-IsWait :
    {lib : Mysql} (stop : ℕ → Bool) (config : Config) (now : ℕ) (w : DbWorker lib)
    → IsWait stop 0 (pos_part w.backoff_sec * 1000) (wait_backoff stop config now w).0
      × GoesOn
          (wait_backoff stop config now w).0.completed
          (wait_backoff stop config now w).1
          w.backoff_sec
unfolding wait_backoff sleep_interruptible
wait_backoff-IsWait stop config now w = (sleep_loop-IsWait stop 0 _ _, goes_on config now w _)

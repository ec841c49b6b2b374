-- ===== src/DbWorker/Stop.antt =====
-- A request to stop, which `Stop` waits for by joining the thread.
use palworld_pal_crosschat.Base.{
  ℕ, suc, ◌+◌, ◌%◌, ◌≡◌, refl, sym, subst, true, not, Option, none, some, List, [], ◌∷◌, if_both, ℤ,
  ◌⊎◌, inl, inr,
}
use palworld_pal_crosschat.Config.Types.{Config}
use palworld_pal_crosschat.Queues.{OutboundMessage, InboundMessage, push, u64_mod}
use palworld_pal_crosschat.DbWorker.Mysql.{Mysql, Fetch, fetched, truncated, fetch_failed}
use palworld_pal_crosschat.DbWorker.Rows.{to_inbound}
use palworld_pal_crosschat.DbWorker.State.{
  Phase, at_top, linking, inserting, polling, idling, backing_off, stopped, overread, sending,
  fetching, DbWorker, update_cursor, insert_outbound, start_poll,
}
use palworld_pal_crosschat.DbWorker.Worker.{
  Outcome, goes, fail, free_rows, inserted, send_step, stop_thread, poll_due, poll_with, poll_step,
  receive, received, fetch_step, step_at, step,
}
use palworld_pal_crosschat.DbWorker.Events.{run_stopping}

-- The thread has ended in order, or it has read past a buffer, after which nothing is known.
abbrev pub EndsOrOverreads : Phase → Type 0
EndsOrOverreads phase = (phase ≡ stopped) ⊎ (phase ≡ overread)

module _ {lib : Mysql} (config : Config) (now : ℕ) where
  abbrev Halts : DbWorker lib → Type 0
  Halts w = (n : ℕ) × EndsOrOverreads (run_stopping config n now w).phase

  abbrev HaltsAfter : Outcome lib → Type 0
  HaltsAfter (w, _) = Halts w

  step-Halts :
      (phase : Phase) (w : DbWorker lib)
      → w.phase ≡ phase
      → HaltsAfter (step_at config phase true now w)
      → Halts w
  unfolding run_stopping step
  step-Halts phase w p h =
      let (n, halted) = subst (λ phase. HaltsAfter (step_at config phase true now w)) (sym p) h in
      (suc n, halted)

  idling-Halts : (w : DbWorker lib) → w.phase ≡ idling → Halts w
  unfolding run_stopping step_at stop_thread
  idling-Halts w p = step-Halts idling w p (0, inl refl)

  backing_off-Halts : (w : DbWorker lib) → w.phase ≡ backing_off → Halts w
  unfolding run_stopping step_at stop_thread
  backing_off-Halts w p = step-Halts backing_off w p (0, inl refl)

  at_top-Halts : (w : DbWorker lib) → w.phase ≡ at_top → Halts w
  unfolding run_stopping step_at stop_thread
  at_top-Halts w p = step-Halts at_top w p (0, inl refl)

  fail-Halts : (w : DbWorker lib) → HaltsAfter (fail config w)
  unfolding fail
  fail-Halts w = backing_off-Halts _ refl

  receive-Halts :
      (then_now : ℕ) (rows : List Fetch) (id : ℤ) (m : Option InboundMessage) (w : DbWorker lib)
      → ((w' : DbWorker lib) → w'.phase ≡ fetching then_now rows → Halts w')
      → HaltsAfter (receive config then_now rows id m w)
  unfolding receive run_stopping
  receive-Halts then_now rows id none w rest = (0, inr refl)
  receive-Halts then_now rows id (some m) w rest =
      let (moved, w') = update_cursor config id (record w { inbound = push w.inbound m }) in
      if_both HaltsAfter (not moved)
        ((fail config (free_rows config w')).0, received m ∷ (fail config (free_rows config w')).1)
        (
          record w' {
            phase = fetching then_now rows;
            inbound_relay_count = (w'.inbound_relay_count + 1) % u64_mod;
          },
          received m ∷ [],
        )
        (fail-Halts (free_rows config w')) (rest _ refl)

  fetching-Halts :
      (then_now : ℕ) (rows : List Fetch) (w : DbWorker lib)
      → w.phase ≡ fetching then_now rows
      → Halts w
  unfolding step_at fetch_step
  fetching-Halts then_now [] w p = step-Halts (fetching then_now []) w p (idling-Halts _ refl)
  fetching-Halts then_now (fetch_failed ∷ rows) w p =
      step-Halts (fetching then_now (fetch_failed ∷ rows)) w p (fail-Halts (free_rows config w))
  fetching-Halts then_now (fetched row ∷ rows) w p =
      step-Halts (fetching then_now (fetched row ∷ rows)) w p
        (receive-Halts then_now rows row.id (to_inbound row) w (fetching-Halts then_now rows))
  fetching-Halts then_now (truncated row ∷ rows) w p =
      step-Halts (fetching then_now (truncated row ∷ rows)) w p
        (receive-Halts then_now rows row.id (to_inbound row) w (fetching-Halts then_now rows))

  poll_with-Halts :
      (rows : Option (List Fetch)) (w : DbWorker lib) → HaltsAfter (poll_with config now rows w)
  poll_with-Halts none w = fail-Halts w
  poll_with-Halts (some rows) w = fetching-Halts now rows _ refl

  polling-Halts : (w : DbWorker lib) → w.phase ≡ polling → Halts w
  unfolding step_at poll_step
  polling-Halts w p = step-Halts polling w p (
      if_both HaltsAfter (not (poll_due config now w)) (goes config idling w)
        (poll_with config now (start_poll config w).0 (start_poll config w).1) (idling-Halts _ refl)
        (poll_with-Halts (start_poll config w).0 (start_poll config w).1))

  inserting-Halts : (w : DbWorker lib) → w.phase ≡ inserting → Halts w
  unfolding step_at
  inserting-Halts w p = step-Halts inserting w p (polling-Halts _ refl)

  sending-Halts : (m : OutboundMessage) (w : DbWorker lib) → w.phase ≡ sending m → Halts w
  unfolding step_at send_step
  sending-Halts m w p =
      let (done, w') = insert_outbound config m w in
      step-Halts (sending m) w p (
        if_both HaltsAfter (not done) (fail config (record w' { outbound = push w'.outbound m }))
          (record w' { phase = inserting }, inserted m ∷ [])
          (fail-Halts (record w' { outbound = push w'.outbound m })) (inserting-Halts _ refl))

  linking-Halts : (w : DbWorker lib) → w.phase ≡ linking → Halts w
  unfolding step_at
  linking-Halts w p = step-Halts linking w p (inserting-Halts _ refl)

  anywhere-Halts : (phase : Phase) (w : DbWorker lib) → w.phase ≡ phase → Halts w
  unfolding run_stopping
  anywhere-Halts at_top w p = at_top-Halts w p
  anywhere-Halts linking w p = linking-Halts w p
  anywhere-Halts inserting w p = inserting-Halts w p
  anywhere-Halts (sending m) w p = sending-Halts m w p
  anywhere-Halts polling w p = polling-Halts w p
  anywhere-Halts idling w p = idling-Halts w p
  anywhere-Halts backing_off w p = backing_off-Halts w p
  anywhere-Halts (fetching then_now rows) w p = fetching-Halts then_now rows w p
  anywhere-Halts stopped w p = (0, inl p)
  anywhere-Halts overread w p = (0, inr p)

pub run_stopping-EndsOrOverreads :
    (lib : Mysql) (config : Config) (now : ℕ) (w : DbWorker lib)
    → (n : ℕ) × EndsOrOverreads (run_stopping config n now w).phase
run_stopping-EndsOrOverreads lib config now w = anywhere-Halts config now w.phase w refl

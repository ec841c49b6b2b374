-- ===== src/DbWorker/Backoff.antt =====
-- The wait before the worker tries again: `backoff_sec` and `reconnect_backoff_max_sec`.
use palworld_pal_crosschat.Base.{
  ℕ, ◌≡◌, Bool, true, false, not, Option, none, some, List, [], ◌∷◌, arith, if_both, All,
  All-append, ℤ, pos, negsuc, pos_part, ◌^◌, ◌<◌, ◌≤ℤ◌,
}
use palworld_pal_crosschat.Config.Types.{Config}
use palworld_pal_crosschat.Queues.{InboundMessage, OutboundMessage, LinkJob, push, try_pop}
use palworld_pal_crosschat.DbWorker.Mysql.{Mysql, Fetch, fetched, truncated, fetch_failed}
use palworld_pal_crosschat.DbWorker.Rows.{to_inbound}
use palworld_pal_crosschat.DbWorker.State.{
  Phase, at_top, linking, inserting, polling, idling, backing_off, stopped, overread, sending,
  fetching, DbWorker, new_db_worker, ensure_connected, mark_failure, init_cursor, store_cursor,
  update_cursor, insert_outbound, start_poll,
}
use palworld_pal_crosschat.DbWorker.Worker.{
  Deed, waited, Outcome, double, min_ℤ, goes, fail, stop_thread, start_round, top_step, link_with,
  link_step, take_outbound, insert_step, send_step, poll_step, receive, fetch_step, back_off,
  step_at, step,
}
use palworld_pal_crosschat.DbWorker.Events.{
  Event, works, captures, asks, takes_inbound, takes_result, event_step, run_events,
}

-- From 1 to the cap.
abbrev pub InRange : ℤ → ℤ → Type 0
InRange top x = (pos 1 ≤ℤ x) × (x ≤ℤ top)

-- A cap whose double is an `int`.
abbrev pub IsCap : ℤ → Type 0
IsCap top = (pos 1 ≤ℤ top) × (pos_part top < 2 ^ 30)

-- Every wait of a list of deeds is in range.
abbrev pub IsWaitInRange : ℤ → Deed → Type 0
IsWaitInRange top (waited s) = InRange top s
IsWaitInRange top _ = Unit

back_off-InRange : (top x : ℤ) → IsCap top → InRange top x → InRange top (min_ℤ (double x) top)
back_off-InRange top (pos n) (h, k) (a, b) = ground arith
back_off-InRange top (negsuc n) (h, k) (a, b) = ground arith

module _ {lib : Mysql} (config : Config) where
  abbrev IsOk : DbWorker lib → Type 0
  IsOk w = InRange config.reconnect_backoff_max_sec w.backoff_sec

  abbrev IsOkOutcome : Outcome lib → Type 0
  IsOkOutcome (w, deeds) = IsOk w × All (IsWaitInRange config.reconnect_backoff_max_sec) deeds

  ensure_connected-IsOk :
      (w : DbWorker lib)
      → IsCap config.reconnect_backoff_max_sec
      → IsOk w
      → IsOk (ensure_connected config w).1
  unfolding ensure_connected
  ensure_connected-IsOk w h k = ground arith

  init_cursor_keeps : (w : DbWorker lib) → (init_cursor config w).1.backoff_sec ≡ w.backoff_sec
  unfolding init_cursor store_cursor
  init_cursor_keeps w = ground arith

  update_cursor_keeps :
      (id : ℤ) (w : DbWorker lib) → (update_cursor config id w).1.backoff_sec ≡ w.backoff_sec
  unfolding update_cursor
  update_cursor_keeps id w = ground arith

  insert_outbound_keeps :
      (m : OutboundMessage) (w : DbWorker lib)
      → (insert_outbound config m w).1.backoff_sec ≡ w.backoff_sec
  unfolding insert_outbound
  insert_outbound_keeps m w = ground arith

  start_poll_keeps : (w : DbWorker lib) → (start_poll config w).1.backoff_sec ≡ w.backoff_sec
  unfolding start_poll
  start_poll_keeps w = ground arith

  fail-IsOk : (w : DbWorker lib) → IsOk w → IsOkOutcome (fail config w)
  unfolding fail mark_failure
  fail-IsOk w k = (k, tt)

  start_round-IsOk : (w : DbWorker lib) → IsOk w → IsOkOutcome (start_round config w)
  unfolding start_round fail mark_failure
  start_round-IsOk w k = let e = init_cursor_keeps w in ground arith

  top_step-IsOk :
      (w : DbWorker lib)
      → IsCap config.reconnect_backoff_max_sec
      → IsOk w
      → IsOkOutcome (top_step config w)
  unfolding top_step
  top_step-IsOk w h k =
      let (joined, w') = ensure_connected config w in
      let e = ensure_connected-IsOk w h k in
      if_both IsOkOutcome (not joined) (goes config backing_off w') (start_round config w') (e, tt)
        (start_round-IsOk w' e)

  take_outbound-IsOk :
      (w : DbWorker lib) (m : Option OutboundMessage)
      → IsOk w
      → IsOkOutcome (take_outbound config w m)
  unfolding take_outbound
  take_outbound-IsOk w none k = (k, tt)
  take_outbound-IsOk w (some m) k = (k, tt)

  send_step-IsOk :
      (m : OutboundMessage) (w : DbWorker lib) → IsOk w → IsOkOutcome (send_step config m w)
  unfolding send_step fail mark_failure
  send_step-IsOk m w k = let e = insert_outbound_keeps m w in ground arith

  link_with-IsOk :
      (w : DbWorker lib) (job : Option LinkJob) → IsOk w → IsOkOutcome (link_with config w job)
  unfolding link_with
  link_with-IsOk w none k = (k, tt)
  link_with-IsOk w (some job) k = (k, (tt, tt))

  poll_step-IsOk : (now : ℕ) (w : DbWorker lib) → IsOk w → IsOkOutcome (poll_step config now w)
  unfolding poll_step fail mark_failure
  poll_step-IsOk now w k = let e = start_poll_keeps w in ground arith

  receive-IsOk :
      (now : ℕ) (rows : List Fetch) (id : ℤ) (m : Option InboundMessage) (w : DbWorker lib)
      → IsOk w
      → IsOkOutcome (receive config now rows id m w)
  unfolding receive fail mark_failure
  receive-IsOk now rows id none w k = (k, tt)
  receive-IsOk now rows id (some m) w k =
      let e = update_cursor_keeps id (record w { inbound = push w.inbound m }) in ground arith

  fetch_step-IsOk :
      (now : ℕ) (rows : List Fetch) (w : DbWorker lib)
      → IsOk w
      → IsOkOutcome (fetch_step config now rows w)
  unfolding fetch_step
  fetch_step-IsOk now [] w k = (k, tt)
  fetch_step-IsOk now (fetch_failed ∷ rows) w k = fail-IsOk w k
  fetch_step-IsOk now (fetched row ∷ rows) w k = receive-IsOk now rows row.id (to_inbound row) w k
  fetch_step-IsOk now (truncated row ∷ rows) w k = receive-IsOk now rows row.id (to_inbound row) w k

  step_at-IsOk :
      (phase : Phase) (stop : Bool) (now : ℕ) (w : DbWorker lib)
      → IsCap config.reconnect_backoff_max_sec
      → IsOk w
      → IsOkOutcome (step_at config phase stop now w)
  unfolding step_at stop_thread link_step insert_step back_off
  step_at-IsOk at_top true now w h k = (k, tt)
  step_at-IsOk at_top false now w h k = top_step-IsOk w h k
  step_at-IsOk linking true now w h k = (k, tt)
  step_at-IsOk linking false now w h k = link_with-IsOk _ _ k
  step_at-IsOk inserting true now w h k = (k, tt)
  step_at-IsOk inserting false now w h k =
      take_outbound-IsOk (record w { outbound = (try_pop w.outbound).1 }) (try_pop w.outbound).0 k
  step_at-IsOk (sending m) stop now w h k = send_step-IsOk m w k
  step_at-IsOk polling stop now w h k = poll_step-IsOk now w k
  step_at-IsOk (fetching then_now rows) stop now w h k = fetch_step-IsOk then_now rows w k
  step_at-IsOk idling true now w h k = (k, tt)
  step_at-IsOk idling false now w h k = (k, tt)
  step_at-IsOk backing_off true now w h k = (k, tt)
  step_at-IsOk backing_off false now w h k =
      (back_off-InRange config.reconnect_backoff_max_sec w.backoff_sec h k, (k, tt))
  step_at-IsOk stopped stop now w h k = (k, tt)
  step_at-IsOk overread stop now w h k = (k, tt)

  event_step-IsOk :
      (e : Event) (w : DbWorker lib)
      → IsCap config.reconnect_backoff_max_sec
      → IsOk w
      → IsOkOutcome (event_step config e w)
  unfolding event_step step
  event_step-IsOk (works stop now) w h k = step_at-IsOk w.phase stop now w h k
  event_step-IsOk (captures _) w h k = (k, tt)
  event_step-IsOk (asks _) w h k = (k, tt)
  event_step-IsOk takes_inbound w h k = (k, tt)
  event_step-IsOk takes_result w h k = (k, tt)

  run_events-IsOk :
      (es : List Event) (w : DbWorker lib)
      → IsCap config.reconnect_backoff_max_sec
      → IsOk w
      → IsOkOutcome (run_events config es w)
  unfolding run_events
  run_events-IsOk [] w h k = (k, tt)
  run_events-IsOk (e ∷ es) w h k =
      let (k1, deeds) = event_step-IsOk e w h k in
      let (k2, more) = run_events-IsOk es (event_step config e w).0 h k1 in
      (k2, All-append _ (event_step config e w).1 _ deeds more)

-- Whatever the database answers and however the threads interleave, where the cap is at least 1 and less
-- than 2 ^ 30, so that no product overflows, a worker that has just started keeps its backoff, and each
-- wait after a failure, from 1 to the cap.
pub run_events-InRange :
    (lib : Mysql) (config : Config) (d : lib.Db) (start : ℕ) (es : List Event)
    → IsCap config.reconnect_backoff_max_sec
    → InRange config.reconnect_backoff_max_sec
        (run_events config es (new_db_worker lib d start)).0.backoff_sec
      × All
          (IsWaitInRange config.reconnect_backoff_max_sec)
          (run_events config es (new_db_worker lib d start)).1
run_events-InRange lib config d start es h =
    run_events-IsOk config es (new_db_worker lib d start) h (omega arith)

-- ===== src/DbWorker/Worker.antt =====
-- `ThreadMain` as a machine: one step is one round of a loop, or one part of the main loop's body. The
-- flag says whether stop was requested when the step reads it, and `now` is the steady clock. Between
-- two steps the game's thread may push to and pop from the queues, and a stop may be requested.
use palworld_pal_crosschat.Base.{
  ℕ, ◌+◌, ◌-◌, ◌*◌, ◌%◌, ◌^◌, ltb, Bool, false, not, Option, none, some, List, [], ◌∷◌, leb,
  if◌then◌else◌, Bytes, ℤ, pos, negsuc, pos_part, ltb_ℤ,
}
use palworld_pal_crosschat.Config.Types.{Config}
use palworld_pal_crosschat.Queues.{OutboundMessage, InboundMessage, LinkJob, push, try_pop, u64_mod}
use palworld_pal_crosschat.DbWorker.Mysql.{
  select_messages, Fetch, fetched, truncated, fetch_failed, Mysql,
}
use palworld_pal_crosschat.DbWorker.Connection.{close_connection}
use palworld_pal_crosschat.DbWorker.Rows.{to_inbound}
use palworld_pal_crosschat.DbWorker.Link.{process_link_job}
use palworld_pal_crosschat.DbWorker.State.{
  Phase, at_top, linking, inserting, polling, idling, backing_off, stopped, overread, sending,
  fetching, DbWorker, with_db, ensure_connected, mark_failure, init_cursor, update_cursor,
  insert_outbound, start_poll,
}

abbrev pub ns_per_millisecond : ℕ
ns_per_millisecond = 1_000_000

-- What a step did that the rest of the program or another server can see.
pub data Deed : Type 0 where
  inserted : OutboundMessage → Deed
  received : InboundMessage → Deed
  restarted : ℤ → Deed
  answered : LinkJob → Bytes → Deed
  waited : ℤ → Deed

-- `int`, with the wrap-around of two's complement for a result that is out of range once.
abbrev pub wrap_int : ℤ → ℤ
wrap_int (pos n) = if ltb n (2 ^ 31) then pos n else negsuc (2 ^ 32 - n - 1)
wrap_int (negsuc n) = if ltb n (2 ^ 31) then negsuc n else pos (2 ^ 32 - n - 1)

-- `backoff_sec * 2`
abbrev pub double : ℤ → ℤ
double (pos n) = wrap_int (pos (n * 2))
double (negsuc n) = wrap_int (negsuc (n * 2 + 1))

abbrev pub min_ℤ : ℤ → ℤ → ℤ
min_ℤ a b = if ltb_ℤ b a then b else a

abbrev pub Outcome : Mysql → Type 0
Outcome lib = DbWorker lib × List Deed

module _ {lib : Mysql} (config : Config) where
  abbrev pub goes : Phase → DbWorker lib → Outcome lib
  goes phase w = (record w { phase = phase }, [])

  unfoldable pub fail : DbWorker lib → Outcome lib
  unfolding mark_failure
  fail w = goes backing_off (mark_failure w)

  unfoldable pub stop_thread : DbWorker lib → Outcome lib
  unfolding close_connection
  stop_thread w =
      (record w { phase = stopped; conn = close_connection lib w.conn; connected = false }, [])

  -- `init_cursor`, where the cursor is not ready yet.
  unfoldable pub start_round : DbWorker lib → Outcome lib
  unfolding init_cursor fail
  start_round w =
      if w.cursor_ready
      then goes linking w
      else (let (ready, w') = init_cursor config w in
          if not ready
          then fail w'
          else (record w' { phase = linking }, restarted w'.cursor_id ∷ []))

  unfoldable pub top_step : DbWorker lib → Outcome lib
  unfolding ensure_connected start_round
  top_step w =
      let (joined, w') = ensure_connected config w in
      if not joined then goes backing_off w' else start_round w'

  unfoldable pub link_with : DbWorker lib → Option LinkJob → Outcome lib
  unfolding process_link_job
  link_with w none = goes inserting w
  link_with w (some job) =
      let (notice, d) = process_link_job lib job w.conn.db in
      (
        record (with_db w d) {
          link_results =
              push w.link_results
                (record { notice = notice; platform_user_id = job.platform_user_id });
        },
        answered job notice ∷ [],
      )

  unfoldable pub link_step : DbWorker lib → Outcome lib
  unfolding link_with
  link_step w =
      let (job, rest) = try_pop w.link_jobs in link_with (record w { link_jobs = rest }) job

  unfoldable pub take_outbound : DbWorker lib → Option OutboundMessage → Outcome lib
  take_outbound w none = goes polling w
  take_outbound w (some m) = goes (sending m) w

  unfoldable pub insert_step : DbWorker lib → Outcome lib
  unfolding take_outbound
  insert_step w =
      let (m, rest) = try_pop w.outbound in take_outbound (record w { outbound = rest }) m

  -- The INSERT of a message that was taken out, which may take its time. A message that was not inserted
  -- goes back, to the end of its queue as that is by then.
  unfoldable pub send_step : OutboundMessage → DbWorker lib → Outcome lib
  unfolding insert_outbound fail
  send_step m w =
      let (done, w') = insert_outbound config m w in
      if not done
      then fail (record w' { outbound = push w'.outbound m })
      else (record w' { phase = inserting }, inserted m ∷ [])

  unfoldable pub poll_due : ℕ → DbWorker lib → Bool
  poll_due now w = leb (pos_part config.poll_interval_ms * ns_per_millisecond) (now - w.last_poll)

  abbrev pub poll_with : ℕ → Option (List Fetch) → DbWorker lib → Outcome lib
  poll_with now none w = fail w
  poll_with now (some rows) w = goes (fetching now rows) w

  unfoldable pub poll_step : ℕ → DbWorker lib → Outcome lib
  unfolding poll_due start_poll fail
  poll_step now w =
      if not (poll_due now w)
      then goes idling w
      else (let (rows, w') = start_poll config w in poll_with now rows w')

  abbrev pub free_rows : DbWorker lib → DbWorker lib
  free_rows w = with_db w (lib.free_result select_messages w.conn.db)

  -- A row of the poll: the message is queued, and then the cursor is moved.
  unfoldable pub receive : ℕ → List Fetch → ℤ → Option InboundMessage → DbWorker lib → Outcome lib
  unfolding update_cursor fail
  receive now rows id none w = goes overread w
  receive now rows id (some m) w =
      let (moved, w') = update_cursor config id (record w { inbound = push w.inbound m }) in
      if not moved then (let (w'', deeds) = fail (free_rows w') in (w'', received m ∷ deeds)) else (
        record w' {
          phase = fetching now rows;
          inbound_relay_count = (w'.inbound_relay_count + 1) % u64_mod;
        },
        received m ∷ [],
      )

  unfoldable pub fetch_step : ℕ → List Fetch → DbWorker lib → Outcome lib
  unfolding receive to_inbound fail
  fetch_step now [] w = goes idling (record (free_rows w) { last_poll = now })
  fetch_step now (fetch_failed ∷ rows) w = fail (free_rows w)
  fetch_step now (fetched row ∷ rows) w = receive now rows row.id (to_inbound row) w
  fetch_step now (truncated row ∷ rows) w = receive now rows row.id (to_inbound row) w

  unfoldable pub back_off : DbWorker lib → Outcome lib
  back_off w = (
    record w {
      phase = at_top;
      backoff_sec = min_ℤ (double w.backoff_sec) config.reconnect_backoff_max_sec;
    },
    waited w.backoff_sec ∷ [],
  )

  unfoldable pub step_at : Phase → Bool → ℕ → DbWorker lib → Outcome lib
  unfolding stop_thread top_step link_step insert_step send_step poll_step fetch_step back_off
  step_at at_top stop now w = if stop then stop_thread w else top_step w
  step_at linking stop now w = if stop then goes inserting w else link_step w
  step_at inserting stop now w = if stop then goes polling w else insert_step w
  step_at (sending m) stop now w = send_step m w
  step_at polling stop now w = poll_step now w
  step_at (fetching then_now rows) stop now w = fetch_step then_now rows w
  step_at idling stop now w = if stop then stop_thread w else goes at_top w
  step_at backing_off stop now w = if stop then stop_thread w else back_off w
  step_at stopped stop now w = (w, [])
  step_at overread stop now w = (w, [])

  unfoldable pub step : Bool → ℕ → DbWorker lib → Outcome lib
  unfolding step_at
  step stop now w = step_at w.phase stop now w

-- ===== src/DbWorker/State.antt =====
-- The state of `DbWorker` with the locals of its thread, and the lambdas of `ThreadMain`.
use palworld_pal_crosschat.Base.{
  ℕ, ◌+◌, ◌-◌, ◌%◌, Bool, true, false, not, ◌&&◌, Option, none, some, List, [], ◌∷◌, if◌then◌else◌,
  ℤ, pos, negsuc,
}
use palworld_pal_crosschat.Config.Types.{Config}
use palworld_pal_crosschat.Queues.{
  OutboundMessage, InboundMessage, LinkJob, LinkResult, BoundedQueue, empty_queue, queue_max,
  u64_mod,
}
use palworld_pal_crosschat.DbWorker.Mysql.{
  insert_message, select_messages, cursor_upsert, max_id, Param, text_param, i64_param, i32_param,
  Fetch, fetched, Mysql, run_stmt, ◌and_then◌,
}
use palworld_pal_crosschat.DbWorker.Connection.{
  Connection, close_connection, connect, prepare_statements,
}

-- Where the thread stands: at the head of the main loop, in the loops over link jobs and over the
-- outbound queue, there with a message that it has taken out, before the poll, in the poll's loop with the time of the poll and the rows that it
-- still has to fetch, before the idle sleep, or before a sleep after a failure. `overread` stands for
-- the read past a buffer, after which nothing is known.
pub data Phase : Type 0 where
  at_top linking inserting polling idling backing_off stopped overread : Phase
  sending : OutboundMessage → Phase
  fetching : ℕ → List Fetch → Phase

pub record DbWorker (lib : Mysql) : Type 0 where
  pub conn : Connection lib
  pub phase : Phase
  pub backoff_sec : ℤ
  pub last_poll : ℕ
  pub cursor_ready : Bool
  pub outbound : BoundedQueue OutboundMessage
  pub inbound : BoundedQueue InboundMessage
  pub link_jobs : BoundedQueue LinkJob
  pub link_results : BoundedQueue LinkResult
  pub outbound_relay_count : ℕ
  pub inbound_relay_count : ℕ
  pub cursor_id : ℤ
  pub connected : Bool

-- `mysql_stmt_fetch(max_stmt) == 0`, and the id that it wrote.
abbrev pub fetched_id : List Fetch → Option ℤ
fetched_id (fetched row ∷ _) = some row.id
fetched_id _ = none

abbrev pub upsert_params : Config → ℤ → List Param
upsert_params config id = text_param config.server_origin ∷ i64_param id ∷ []

abbrev pub insert_params : Config → OutboundMessage → List Param
insert_params config m =
    text_param config.server_origin
    ∷ text_param m.sender_name
    ∷ text_param m.sender_id
    ∷ text_param m.guild_name
    ∷ text_param m.message
    ∷ []

abbrev pub select_params : Config → ℤ → List Param
select_params config cursor =
    i64_param cursor ∷ text_param config.server_origin ∷ i32_param config.max_batch ∷ []

-- The thread's start, at a time from which one hour can be taken.
abbrev pub new_db_worker : (lib : Mysql) → lib.Db → ℕ → DbWorker lib
new_db_worker lib d now = record {
  conn = record { db = d; has_handle = false; stmts = [] };
  phase = at_top;
  backoff_sec = pos 1;
  last_poll = now - 3_600_000_000_000;
  cursor_ready = false;
  outbound = empty_queue queue_max;
  inbound = empty_queue queue_max;
  link_jobs = empty_queue queue_max;
  link_results = empty_queue queue_max;
  outbound_relay_count = 0;
  inbound_relay_count = 0;
  cursor_id = negsuc 0;
  connected = false;
}

module _ {lib : Mysql} where
  abbrev pub with_db : DbWorker lib → lib.Db → DbWorker lib
  with_db w d = record w { conn = record w.conn { db = d } }

  unfoldable pub ensure_connected : Config → DbWorker lib → Bool × DbWorker lib
  unfolding connect prepare_statements close_connection
  ensure_connected config w =
      if w.conn.has_handle && w.connected
      then (true, w)
      else (let (joined, c1) = connect lib config w.conn in
          if not joined
          then (false, record w { conn = c1; connected = false; cursor_ready = false })
          else (let (prepared, c2) = prepare_statements lib c1 in
              if not prepared
              then (
                false,
                record w {
                  conn = close_connection lib c2;
                  connected = false;
                  cursor_ready = false;
                },
              )
              else (true, record w { conn = c2; connected = true; backoff_sec = pos 1 })))

  unfoldable pub mark_failure : DbWorker lib → DbWorker lib
  unfolding close_connection
  mark_failure w = record w {
    connected = false;
    cursor_ready = false;
    conn = close_connection lib w.conn;
  }

  -- The end of `init_cursor`, from the id that was read.
  unfoldable pub store_cursor : Config → DbWorker lib → Option ℤ → Bool × DbWorker lib
  store_cursor config w none = (false, w)
  store_cursor config w (some id) =
      let (ran, d) = run_stmt lib cursor_upsert (upsert_params config id) w.conn.db in
      if not ran
      then (false, with_db w d)
      else (true, record (with_db w d) { cursor_id = id; cursor_ready = true })

  unfoldable pub init_cursor : Config → DbWorker lib → Bool × DbWorker lib
  unfolding store_cursor
  init_cursor config w =
      let (ran, d1) = lib.execute max_id w.conn.db in
      if not ran
      then (false, with_db w d1)
      else (let (bound, d2) = lib.bind_result max_id d1 in
          let d3 = lib.free_result max_id d2 in
          store_cursor config (with_db w d3)
            (if bound then fetched_id (lib.fetches max_id d2) else none))

  unfoldable pub update_cursor : Config → ℤ → DbWorker lib → Bool × DbWorker lib
  update_cursor config id w =
      let (ran, d) = run_stmt lib cursor_upsert (upsert_params config id) w.conn.db in
      if not ran then (false, with_db w d) else (true, record (with_db w d) { cursor_id = id })

  unfoldable pub insert_outbound : Config → OutboundMessage → DbWorker lib → Bool × DbWorker lib
  insert_outbound config m w =
      let (ran, d) = run_stmt lib insert_message (insert_params config m) w.conn.db in
      if not ran then (false, with_db w d) else (
        true,
        record (with_db w d) { outbound_relay_count = (w.outbound_relay_count + 1) % u64_mod },
      )

  -- The part of `poll_inbound` before its loop: the rows to fetch, or a failure.
  unfoldable pub start_poll : Config → DbWorker lib → Option (List Fetch) × DbWorker lib
  start_poll config w =
      let (ran, d1) = run_stmt lib select_messages (select_params config w.cursor_id) w.conn.db in
      if not ran
      then (none, with_db w d1)
      else (let (stored, d2) =
            (lib.bind_result select_messages and_then lib.store_result select_messages) d1 in
          if not stored
          then (none, with_db w (lib.free_result select_messages d2))
          else (some (lib.fetches select_messages d2), with_db w d2))

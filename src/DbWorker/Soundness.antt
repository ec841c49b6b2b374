-- ===== src/DbWorker/Soundness.antt =====
-- The connection over the thread's steps: it has its handle and its statements where it is used.
use palworld_pal_crosschat.Base.{
  ℕ, ◌≡◌, refl, inl, inr, Bool, true, false, not, Option, none, some, List, [], ◌∷◌, arith,
  if◌then◌else◌, Bool-cases, if_both, if_true, if_false, ℤ,
}
use palworld_pal_crosschat.Config.Types.{Config}
use palworld_pal_crosschat.Queues.{InboundMessage, OutboundMessage, LinkJob, push, try_pop}
use palworld_pal_crosschat.DbWorker.Mysql.{Mysql, Fetch, fetched, truncated, fetch_failed}
use palworld_pal_crosschat.DbWorker.Rows.{to_inbound}
use palworld_pal_crosschat.DbWorker.State.{
  Phase, at_top, linking, inserting, polling, idling, backing_off, stopped, overread, sending,
  fetching, DbWorker, new_db_worker, ensure_connected, mark_failure, init_cursor, store_cursor,
  update_cursor, insert_outbound, start_poll,
}
use palworld_pal_crosschat.DbWorker.Worker.{
  inserted, free_rows, Outcome, goes, fail, stop_thread, start_round, top_step, link_with,
  link_step, take_outbound, insert_step, send_step, poll_with, poll_step, receive, fetch_step,
  back_off, step_at, step,
}
use palworld_pal_crosschat.DbWorker.Events.{
  Event, works, captures, asks, takes_inbound, takes_result, event_step, run_events,
}
use palworld_pal_crosschat.DbWorker.Ready.{
  IsUsable, IsReady, IsSoundAt, IsSound, IsJoined, close_connection-IsClosed, IsSoundAt-queues,
  IsReady→IsLinked, ensure_connected-IsJoined,
}

module _ {lib : Mysql} where
  abbrev IsSoundOutcome : Outcome lib → Type 0
  IsSoundOutcome (w, _) = IsSound w

  fail-IsSound : (config : Config) (w : DbWorker lib) → IsSoundOutcome (fail config w)
  unfolding fail mark_failure
  fail-IsSound config w = inr (refl, refl)

  init_cursor-IsReady :
      (config : Config) (w : DbWorker lib)
      → w.connected ≡ true
      → IsUsable w.conn
      → (init_cursor config w).0 ≡ true
      → IsReady (init_cursor config w).1
  unfolding init_cursor store_cursor
  init_cursor-IsReady config w c u done = ground arith

  update_cursor-IsReady :
      (config : Config) (id : ℤ) (w : DbWorker lib)
      → IsReady w
      → IsReady (update_cursor config id w).1
  unfolding update_cursor
  update_cursor-IsReady config id w r = ground arith

  insert_outbound-IsReady :
      (config : Config) (m : OutboundMessage) (w : DbWorker lib)
      → IsReady w
      → IsReady (insert_outbound config m w).1
  unfolding insert_outbound
  insert_outbound-IsReady config m w r = ground arith

  start_poll-IsReady :
      (config : Config) (w : DbWorker lib) → IsReady w → IsReady (start_poll config w).1
  unfolding start_poll
  start_poll-IsReady config w r = ground arith

  start_round-IsSound :
      (config : Config) (w : DbWorker lib)
      → w.connected ≡ true
      → IsUsable w.conn
      → IsSoundOutcome (start_round config w)
  unfolding start_round
  start_round-IsSound config w c u = elim (Bool-cases w.cursor_ready) [
    | inl e ↦ if_true IsSoundOutcome w.cursor_ready (goes config linking w) _ e (c, u, e)
    | inr e ↦
        if_false IsSoundOutcome w.cursor_ready (goes config linking w) _ e
          (elim (Bool-cases (init_cursor config w).0) [
            | inl e' ↦
                if_false IsSoundOutcome (not (init_cursor config w).0) _ _ (ground arith)
                  (init_cursor-IsReady config w c u e')
            | inr e' ↦
                if_true IsSoundOutcome (not (init_cursor config w).0) _ _ (ground arith)
                  (fail-IsSound config (init_cursor config w).1)
          ])
  ]

  joined-IsSound :
      (config : Config) (r : Bool × DbWorker lib)
      → IsJoined r
      → IsSoundOutcome (if not r.0 then goes config backing_off r.1 else start_round config r.1)
  joined-IsSound config (true, w) j = start_round-IsSound config w j.1 j.2
  joined-IsSound config (false, w) j = j

  take_outbound-IsSound :
      (config : Config) (w : DbWorker lib) (m : Option OutboundMessage)
      → IsReady w
      → IsSoundOutcome (take_outbound config w m)
  unfolding take_outbound
  take_outbound-IsSound config w none r = r
  take_outbound-IsSound config w (some m) r = r

  send_step-IsSound :
      (config : Config) (m : OutboundMessage) (w : DbWorker lib)
      → IsReady w
      → IsSoundOutcome (send_step config m w)
  unfolding send_step
  send_step-IsSound config m w r =
      let (done, w') = insert_outbound config m w in
      if_both IsSoundOutcome (not done) _ (record w' { phase = inserting }, inserted m ∷ [])
        (fail-IsSound config (record w' { outbound = push w'.outbound m }))
        (insert_outbound-IsReady config m w r)

  link_with-IsSound :
      (config : Config) (w : DbWorker lib) (job : Option LinkJob)
      → IsReady w
      → w.phase ≡ linking
      → IsSoundOutcome (link_with config w job)
  unfolding link_with
  link_with-IsSound config w none r p = r
  link_with-IsSound config w (some job) r p = rw p r

  poll_with-IsSound :
      (config : Config) (now : ℕ) (rows : Option (List Fetch)) (w : DbWorker lib)
      → IsReady w
      → IsSoundOutcome (poll_with config now rows w)
  poll_with-IsSound config now none w r = fail-IsSound config w
  poll_with-IsSound config now (some rows) w r = r

  poll_step-IsSound :
      (config : Config) (now : ℕ) (w : DbWorker lib)
      → IsReady w
      → IsSoundOutcome (poll_step config now w)
  unfolding poll_step
  poll_step-IsSound config now w r =
      if_both IsSoundOutcome _ (goes config idling w) _ (IsReady→IsLinked w r) (
        poll_with-IsSound config now (start_poll config w).0 (start_poll config w).1
          (start_poll-IsReady config w r))

  receive-IsSound :
      (config : Config) (now : ℕ) (rows : List Fetch) (id : ℤ) (m : Option InboundMessage)
      (w : DbWorker lib)
      → IsReady w
      → IsSoundOutcome (receive config now rows id m w)
  unfolding receive
  receive-IsSound config now rows id none w r = tt
  receive-IsSound config now rows id (some m) w r =
      if_both IsSoundOutcome
        (not (update_cursor config id (record w { inbound = push w.inbound m })).0) _ _
        (fail-IsSound config
          (free_rows config (update_cursor config id (record w { inbound = push w.inbound m })).1))
        (update_cursor-IsReady config id (record w { inbound = push w.inbound m }) r)

  fetch_step-IsSound :
      (config : Config) (now : ℕ) (rows : List Fetch) (w : DbWorker lib)
      → IsReady w
      → IsSoundOutcome (fetch_step config now rows w)
  unfolding fetch_step
  fetch_step-IsSound config now [] w r = IsReady→IsLinked w r
  fetch_step-IsSound config now (fetch_failed ∷ rows) w r = fail-IsSound config (free_rows config w)
  fetch_step-IsSound config now (fetched row ∷ rows) w r =
      receive-IsSound config now rows row.id (to_inbound row) w r
  fetch_step-IsSound config now (truncated row ∷ rows) w r =
      receive-IsSound config now rows row.id (to_inbound row) w r

  pub step_at-IsSound :
      (config : Config) (phase : Phase) (stop : Bool) (now : ℕ) (w : DbWorker lib)
      → w.phase ≡ phase
      → IsSoundAt phase w
      → IsSoundOutcome (step_at config phase stop now w)
  unfolding step_at stop_thread top_step link_step insert_step back_off
  step_at-IsSound config at_top true now w p s = (close_connection-IsClosed w.conn, refl)
  step_at-IsSound config at_top false now w p s =
      joined-IsSound config (ensure_connected config w) (ensure_connected-IsJoined config w s)
  step_at-IsSound config linking true now w p s = s
  step_at-IsSound config linking false now w p s = link_with-IsSound config _ _ s p
  step_at-IsSound config inserting true now w p s = s
  step_at-IsSound config inserting false now w p s =
      take_outbound-IsSound config (record w { outbound = (try_pop w.outbound).1 })
        (try_pop w.outbound).0 s
  step_at-IsSound config (sending m) stop now w p s = send_step-IsSound config m w s
  step_at-IsSound config polling stop now w p s = poll_step-IsSound config now w s
  step_at-IsSound config (fetching then_now rows) stop now w p s =
      fetch_step-IsSound config then_now rows w s
  step_at-IsSound config idling true now w p s = (close_connection-IsClosed w.conn, refl)
  step_at-IsSound config idling false now w p s = s
  step_at-IsSound config backing_off true now w p s = (close_connection-IsClosed w.conn, refl)
  step_at-IsSound config backing_off false now w p s = s
  step_at-IsSound config stopped stop now w p s = rw p s
  step_at-IsSound config overread stop now w p s = rw p tt

  pub event_step-IsSound :
      (config : Config) (e : Event) (w : DbWorker lib)
      → IsSound w
      → IsSoundOutcome (event_step config e w)
  unfolding event_step step
  event_step-IsSound config (works stop now) w s = step_at-IsSound config w.phase stop now w refl s
  event_step-IsSound config (captures _) w s = IsSoundAt-queues w.phase w _ _ _ _ s
  event_step-IsSound config (asks _) w s = IsSoundAt-queues w.phase w _ _ _ _ s
  event_step-IsSound config takes_inbound w s = IsSoundAt-queues w.phase w _ _ _ _ s
  event_step-IsSound config takes_result w s = IsSoundAt-queues w.phase w _ _ _ _ s

  pub run_events-IsSound :
      (config : Config) (es : List Event) (w : DbWorker lib)
      → IsSound w
      → IsSoundOutcome (run_events config es w)
  unfolding run_events
  run_events-IsSound config [] w s = s
  run_events-IsSound config (e ∷ es) w s =
      run_events-IsSound config es (event_step config e w).0 (event_step-IsSound config e w s)

-- What the start of a round finds: `EnsureConnected` tells the truth about the connection.
abbrev pub IsSoundStart : {lib : Mysql} → Config → Phase → DbWorker lib → Type 0
IsSoundStart config at_top w = IsJoined (ensure_connected config w)
IsSoundStart config _ w = Unit

at-IsSoundStart :
    {lib : Mysql} (config : Config) (phase : Phase) (w : DbWorker lib)
    → IsSoundAt phase w
    → IsSoundStart config phase w
at-IsSoundStart config at_top w s = ensure_connected-IsJoined config w s
at-IsSoundStart config linking w s = tt
at-IsSoundStart config inserting w s = tt
at-IsSoundStart config (sending _) w s = tt
at-IsSoundStart config polling w s = tt
at-IsSoundStart config (fetching _ _) w s = tt
at-IsSoundStart config idling w s = tt
at-IsSoundStart config backing_off w s = tt
at-IsSoundStart config stopped w s = tt
at-IsSoundStart config overread w s = tt

-- Whatever the database answers and however the threads interleave, from the start on: in the loops over
-- the link jobs, over the outbound queue and over the rows of a poll, and before a poll, the thread has
-- a handle, all seven statements and a cursor; at the start of a round, where the cursor may be missing,
-- EnsureConnected succeeds only with a handle and all seven statements; between the rounds the thread is
-- either connected with all statements or has no cursor left; and when it has stopped, the handle and
-- every statement are closed. Nothing is claimed behind a read past a buffer.
pub run_events-IsSoundAt :
    (lib : Mysql) (config : Config) (d : lib.Db) (start : ℕ) (es : List Event)
    → IsSoundAt
        (run_events config es (new_db_worker lib d start)).0.phase
        (run_events config es (new_db_worker lib d start)).0
      × IsSoundStart config
          (run_events config es (new_db_worker lib d start)).0.phase
          (run_events config es (new_db_worker lib d start)).0
run_events-IsSoundAt lib config d start es =
    let sound = run_events-IsSound config es (new_db_worker lib d start) (inr (refl, refl)) in
    (sound, at-IsSoundStart config _ _ sound)

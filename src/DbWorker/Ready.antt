-- ===== src/DbWorker/Ready.antt =====
-- What `Connect`, `PrepareStatements` and `Close` leave of the connection, and what must hold of it where
-- the thread stands.
use palworld_pal_crosschat.Base.{
  ◌≤◌, ◌≡◌, refl, ◌⊎◌, inl, inr, Bool, true, false, not, ◌&&◌, List, [], ◌∷◌, arith, if◌then◌else◌,
  if_true, if_false, length, pos,
}
use palworld_pal_crosschat.Config.Types.{Config}
use palworld_pal_crosschat.Queues.{
  InboundMessage, OutboundMessage, LinkJob, LinkResult, BoundedQueue,
}
use palworld_pal_crosschat.DbWorker.Mysql.{Mysql, Stmt}
use palworld_pal_crosschat.DbWorker.Connection.{
  Connection, all_stmts, free_stmts, close_connection, connect, init_all, prepare_statements,
}
use palworld_pal_crosschat.DbWorker.State.{
  Phase, at_top, linking, inserting, polling, idling, backing_off, stopped, overread, sending,
  fetching, DbWorker, ensure_connected,
}

init_all-length-le :
    (lib : Mysql) (stmts : List Stmt) (d : lib.Db) → length (init_all lib stmts d).0 ≤ length stmts
unfolding init_all
init_all-length-le lib [] d = omega arith
init_all-length-le lib (stmt ∷ stmts) d =
    let le = init_all-length-le lib stmts (lib.stmt_init stmt d).1 in ground arith

-- Where no statement is null, these are all the statements.
init_all-full :
    (lib : Mysql) (stmts : List Stmt) (d : lib.Db)
    → length stmts ≤ length (init_all lib stmts d).0
    → (init_all lib stmts d).0 ≡ stmts
unfolding init_all
init_all-full lib [] d h = refl
init_all-full lib (stmt ∷ stmts) d h =
    let le = init_all-length-le lib stmts (lib.stmt_init stmt d).1 in
    let full = init_all-full lib stmts (lib.stmt_init stmt d).1 in grind arith

module _ {lib : Mysql} where
  abbrev pub IsClosed : Connection lib → Type 0
  IsClosed c = (c.has_handle ≡ false) × (c.stmts ≡ [])

  abbrev pub IsUsable : Connection lib → Type 0
  IsUsable c = (c.has_handle ≡ true) × (c.stmts ≡ all_stmts)

  pub close_connection-IsClosed : (c : Connection lib) → IsClosed (close_connection lib c)
  unfolding close_connection free_stmts
  close_connection-IsClosed c = ground arith

  prepare_statements-IsUsable :
      (c : Connection lib)
      → c.has_handle ≡ true
      → (prepare_statements lib c).0 ≡ true
      → IsUsable (prepare_statements lib c).1
  unfolding prepare_statements free_stmts
  prepare_statements-IsUsable c h done =
      let full = init_all-full lib all_stmts (free_stmts lib c).db in grind arith

  connect-handle :
      (config : Config) (c : Connection lib)
      → (connect lib config c).0 ≡ true
      → (connect lib config c).1.has_handle ≡ true
  unfolding connect
  connect-handle config c done = ground arith

  -- Connected with all statements, or not connected and with no cursor.
  abbrev pub IsLinked : DbWorker lib → Type 0
  IsLinked w =
      ((w.connected ≡ true) × IsUsable w.conn) ⊎ ((w.connected ≡ false) × (w.cursor_ready ≡ false))

  abbrev pub IsReady : DbWorker lib → Type 0
  IsReady w = (w.connected ≡ true) × IsUsable w.conn × (w.cursor_ready ≡ true)

  -- What holds of the connection where the thread stands at a phase.
  abbrev pub IsSoundAt : Phase → DbWorker lib → Type 0
  IsSoundAt at_top w = IsLinked w
  IsSoundAt idling w = IsLinked w
  IsSoundAt backing_off w = IsLinked w
  IsSoundAt stopped w = IsClosed w.conn × (w.connected ≡ false)
  IsSoundAt overread w = Unit
  IsSoundAt linking w = IsReady w
  IsSoundAt inserting w = IsReady w
  IsSoundAt (sending _) w = IsReady w
  IsSoundAt polling w = IsReady w
  IsSoundAt (fetching _ _) w = IsReady w

  abbrev pub IsSound : DbWorker lib → Type 0
  IsSound w = IsSoundAt w.phase w

  -- The queues do not matter.
  pub IsSoundAt-queues :
      (phase : Phase) (w : DbWorker lib) (a : BoundedQueue OutboundMessage)
      (b : BoundedQueue InboundMessage) (c : BoundedQueue LinkJob) (d : BoundedQueue LinkResult)
      → IsSoundAt phase w
      → IsSoundAt phase (record w { outbound = a; inbound = b; link_jobs = c; link_results = d })
  IsSoundAt-queues at_top w a b c d s = s
  IsSoundAt-queues linking w a b c d s = s
  IsSoundAt-queues inserting w a b c d s = s
  IsSoundAt-queues (sending _) w a b c d s = s
  IsSoundAt-queues polling w a b c d s = s
  IsSoundAt-queues idling w a b c d s = s
  IsSoundAt-queues backing_off w a b c d s = s
  IsSoundAt-queues stopped w a b c d s = s
  IsSoundAt-queues overread w a b c d s = s
  IsSoundAt-queues (fetching _ _) w a b c d s = s

  pub IsReady→IsLinked : (w : DbWorker lib) → IsReady w → IsLinked w
  IsReady→IsLinked w (c, u, r) = inl (c, u)

  -- What `ensure_connected` leaves, by what it gives.
  abbrev pub IsJoined : Bool × DbWorker lib → Type 0
  IsJoined (true, w) = IsLinked w × (w.connected ≡ true) × IsUsable w.conn
  IsJoined (false, w) = IsLinked w

  prepare-IsJoined :
      (w : DbWorker lib) (r : Bool × Connection lib)
      → (r.0 ≡ true → IsUsable r.1)
      → IsJoined (
          if not r.0
          then (
            false,
            record w { conn = close_connection lib r.1; connected = false; cursor_ready = false },
          )
          else (true, record w { conn = r.1; connected = true; backoff_sec = pos 1 }))
  prepare-IsJoined w (true, c) u = (inl (refl, u refl), refl, u refl)
  prepare-IsJoined w (false, c) u = inr (refl, refl)

  connect-IsJoined :
      (w : DbWorker lib) (r : Bool × Connection lib)
      → (r.0 ≡ true → r.1.has_handle ≡ true)
      → IsJoined (
          if not r.0
          then (false, record w { conn = r.1; connected = false; cursor_ready = false })
          else (if not (prepare_statements lib r.1).0
              then (
                false,
                record w {
                  conn = close_connection lib (prepare_statements lib r.1).1;
                  connected = false;
                  cursor_ready = false;
                },
              )
              else (
                true,
                record w {
                  conn = (prepare_statements lib r.1).1;
                  connected = true;
                  backoff_sec = pos 1;
                },
              )))
  connect-IsJoined w (true, c) u =
      prepare-IsJoined w (prepare_statements lib c) (prepare_statements-IsUsable c (u refl))
  connect-IsJoined w (false, c) u = inr (refl, refl)

  pub ensure_connected-IsJoined :
      (config : Config) (w : DbWorker lib) → IsLinked w → IsJoined (ensure_connected config w)
  unfolding ensure_connected
  ensure_connected-IsJoined config w (inr (c, r)) =
      if_false IsJoined (w.conn.has_handle && w.connected) (true, w) _ (ground arith)
        (connect-IsJoined w (connect lib config w.conn) (connect-handle config w.conn))
  ensure_connected-IsJoined config w (inl (c, u)) =
      if_true IsJoined (w.conn.has_handle && w.connected) (true, w) _ (ground arith)
        (inl (c, u), c, u)

-- ===== src/Tests/Database.antt =====
-- The database thread, on a client library that keeps the table of messages in a list.
use palworld_pal_crosschat.Base.{
  ◌-◌, ◌<◌, ◌≡◌, refl, ◌⊎◌, true, false, none, some, List, [], ◌∷◌, ◌++◌, map, arith, if◌then◌else◌,
  All, length, take, Bytes, codes, ℤ, pos, ltb_ℤ,
}
use palworld_pal_crosschat.Config.Types.{default_config}
use palworld_pal_crosschat.Queues.{OutboundMessage, InboundMessage, LinkJob, push, try_pop}
use palworld_pal_crosschat.DbWorker.Mysql.{
  Stmt, select_messages, max_id, link_lookup, Param, i64_param, Row, Fetch, fetched, Mysql,
}
use palworld_pal_crosschat.DbWorker.Link.{link_done}
use palworld_pal_crosschat.DbWorker.State.{inserting, DbWorker, new_db_worker, insert_params}
use palworld_pal_crosschat.DbWorker.Worker.{inserted, received, answered, restarted, step}
use palworld_pal_crosschat.DbWorker.Events.{Event, works, captures, asks, takes_inbound, run_events}
use palworld_pal_crosschat.DbWorker.Backoff.{InRange, IsWaitInRange, run_events-InRange}
use palworld_pal_crosschat.DbWorker.Ready.{IsSoundAt}
use palworld_pal_crosschat.DbWorker.Soundness.{IsSoundStart, run_events-IsSoundAt}
use palworld_pal_crosschat.DbWorker.Drain.{sends_for, IsKept, run_events-drains, insert_step-IsKept}
use palworld_pal_crosschat.DbWorker.Columns.{stored_row, carried, carried_as, carried_lem}
use palworld_pal_crosschat.DbWorker.Rows.{assign_column, message_buffer}

-- The parameters bound last, and the ids of the messages that another server left.
pub record Table : Type 0 where
  bound : List Param
  ids : List ℤ

abbrev hello : Bytes
hello = codes "hello"

abbrev row_of : ℤ → Row
row_of id = record {
  id = id;
  origin = some (codes "EU");
  sender_name = some (codes "Bob");
  sender_id = some (codes "7");
  guild_name = none;
  message = some hello;
}

-- The rows above an id, each above the one before it.
abbrev rows_above : ℤ → List ℤ → List Fetch
rows_above cursor [] = []
rows_above cursor (id ∷ ids) =
    let taken = rows_above id ids in
    let skipped = rows_above cursor ids in
    if ltb_ℤ cursor id then fetched (row_of id) ∷ taken else skipped

abbrev table_fetches : Stmt → List Param → List ℤ → List Fetch
table_fetches select_messages (i64_param cursor ∷ _) ids = rows_above cursor ids
table_fetches max_id _ ids = fetched (row_of (pos 4)) ∷ []
table_fetches link_lookup _ ids = fetched (row_of (pos 0)) ∷ []
table_fetches _ _ ids = []

abbrev pub table_lib : Mysql
table_lib = record {
  Db = Table;
  init = λ d. (true, d);
  real_connect = λ _ _ _ _ _ d. (true, d);
  close = λ d. d;
  stmt_init = λ _ d. (true, d);
  stmt_close = λ _ d. d;
  stmt_prepare = λ _ _ d. (true, d);
  bind_param = λ _ params d. (true, record d { bound = params });
  execute = λ _ d. (true, d);
  bind_result = λ _ d. (true, d);
  store_result = λ _ d. (true, d);
  fetches = λ stmt d. table_fetches stmt d.bound d.ids;
  free_result = λ _ d. d;
  affected_rows = λ _ _. 1;
}

abbrev pub table : Table
table = record { bound = []; ids = pos 3 ∷ pos 5 ∷ pos 9 ∷ [] }

abbrev chat : OutboundMessage
chat = record { sender_name = codes "Ann"; sender_id = codes "1"; guild_name = []; message = hello }

abbrev pub job : LinkJob
job = record {
  connect_code = codes "A1";
  platform = codes "steam";
  user_id = codes "2";
  platform_user_id = codes "steam_2";
  player_name = codes "Ann";
}

-- A connection, a message out, two messages in, and a stop.
abbrev day : List Event
day =
    works false 0
    ∷ asks job
    ∷ works false 0
    ∷ works false 0
    ∷ captures chat
    ∷ works false 0
    ∷ works false 0
    ∷ works false 0
    ∷ works false 9_000_000_000_000
    ∷ works false 1
    ∷ works false 1
    ∷ takes_inbound
    ∷ works false 1
    ∷ works true 1
    ∷ []

abbrev heard : ℤ → InboundMessage
heard id = record {
  id = id;
  origin = codes "EU";
  sender_name = codes "Bob";
  sender_id = codes "7";
  guild_name = [];
  message = hello;
}

a_day :
    (run_events default_config day (new_db_worker table_lib table 0)).1
    ≡ restarted (pos 4)
      ∷ answered job link_done
      ∷ inserted chat
      ∷ received (heard (pos 5))
      ∷ received (heard (pos 9))
      ∷ []
unfolding run_events step try_pop push assign_column
a_day = refl

run_events-InRange_example :
    InRange (pos 30) (run_events default_config day (new_db_worker table_lib table 0)).0.backoff_sec
    × All
        (IsWaitInRange (pos 30))
        (run_events default_config day (new_db_worker table_lib table 0)).1
run_events-InRange_example =
    run_events-InRange table_lib default_config table 0 day (omega arith, omega arith)

run_events-IsSoundAt_example :
    IsSoundAt
      (run_events default_config day (new_db_worker table_lib table 0)).0.phase
      (run_events default_config day (new_db_worker table_lib table 0)).0
    × IsSoundStart default_config
        (run_events default_config day (new_db_worker table_lib table 0)).0.phase
        (run_events default_config day (new_db_worker table_lib table 0)).0
run_events-IsSoundAt_example = run_events-IsSoundAt table_lib default_config table 0 day

-- The worker in the loop over the outbound queue, with two messages.
abbrev pub two_waiting : DbWorker table_lib
two_waiting = record (new_db_worker table_lib table 0) {
  phase = inserting;
  outbound = record { deque = chat ∷ chat ∷ []; max_size = 2; drops = 0 };
}

run_events-drains_example :
    ((run_events default_config (sends_for 2 5) two_waiting).0.phase ≡ inserting)
    × ((run_events default_config (sends_for 2 5) two_waiting).0.outbound.deque ≡ [])
    × ((run_events default_config (sends_for 2 5) two_waiting).1
        ≡ inserted chat ∷ inserted chat ∷ [])
run_events-drains_example =
    run_events-drains table_lib default_config 5 two_waiting (λ params d. refl) refl

insert_step-IsKept_example :
    IsKept chat
      (chat ∷ [])
      (run_events default_config (works false 5 ∷ map captures [] ++ works true 6 ∷ []) two_waiting)
insert_step-IsKept_example =
    insert_step-IsKept table_lib default_config 5 6 true two_waiting chat (chat ∷ []) [] refl refl
      (omega arith)

carried_lem_example :
    ((length hello < message_buffer)
      × (carried (stored_row (pos 3) (insert_params default_config chat))
          ≡ some (carried_as default_config (pos 3) chat hello)))
    ⊎ ((length hello ≡ message_buffer)
        × (carried (stored_row (pos 3) (insert_params default_config chat))
            ≡ some (
                carried_as default_config
                  (pos 3)
                  chat
                  (take (message_buffer - 1) hello ++ 0 ∷ []))))
carried_lem_example =
    carried_lem default_config (pos 3) chat (omega arith, omega arith, omega arith, omega arith)
      (omega arith)

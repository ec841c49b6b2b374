-- ===== src/Tests/Threads.antt =====
-- The database thread's waits, and the calls of Start and Stop.
use palworld_pal_crosschat.Base.{
  ℕ, ◌≡◌, refl, Bool, false, some, [], ◌∷◌, arith, leb, length, codes, lookup, pos,
}
use palworld_pal_crosschat.Queues.{try_pop, empty_queue, queue_max}
use palworld_pal_crosschat.Config.Types.{default_config}
use palworld_pal_crosschat.DbWorker.State.{DbWorker, new_db_worker, linking, backing_off, stopped}
use palworld_pal_crosschat.DbWorker.Worker.{step}
use palworld_pal_crosschat.DbWorker.Events.{works, run_events, run_stopping}
use palworld_pal_crosschat.DbWorker.Drain.{works_for}
use palworld_pal_crosschat.DbWorker.Answers.{HasAnswered, run_events-HasAnswered}
use palworld_pal_crosschat.DbWorker.Stop.{EndsOrOverreads}
use palworld_pal_crosschat.DbWorker.Sleep.{IsWait, GoesOn, wait_backoff, wait_backoff-IsWait}
use palworld_pal_crosschat.DbWorker.Lifecycle.{
  DbThread, new_thread, start, stop, happens, starts, between, stops, Reached, constructed, after,
  IsOwned, Reached-IsOwned,
}
use palworld_pal_crosschat.Guid.{nil_guid, guid_eq}
use palworld_pal_crosschat.Engine.{WeakGet, gone, Controller}
use palworld_pal_crosschat.ChatInject.{new_inject}
use palworld_pal_crosschat.ChatCapture.State.{ChatCapture, LinkClient}
use palworld_pal_crosschat.PalCrosschat.{deliver_from}
use palworld_pal_crosschat.PalCrosschat.Linked.{IsDeferred, answered_job-IsDeferred}
use palworld_pal_crosschat.Tests.Chat.{plain, capture}
use palworld_pal_crosschat.Tests.Database.{table_lib, table, job}

-- A stop is requested while the thread waits for a second after a failure.
abbrev failing : DbWorker table_lib
failing = record (new_db_worker table_lib table 0) { phase = backing_off }

abbrev stop_later : ℕ → Bool
stop_later n = leb 7 n

wait_backoff-IsWait_example :
    IsWait stop_later 0 1000 (wait_backoff stop_later default_config 5 failing).0
    × GoesOn
        (wait_backoff stop_later default_config 5 failing).0.completed
        (wait_backoff stop_later default_config 5 failing).1
        (pos 1)
wait_backoff-IsWait_example = wait_backoff-IsWait stop_later default_config 5 failing

-- Start, two steps, Stop, and Start again.
abbrev started_once : DbThread table_lib
started_once = start default_config 0 7_200_000_000_000 (new_thread table)

abbrev worked : DbThread table_lib
worked =
    happens default_config (works false 1) (happens default_config (works false 1) started_once)

worked_ends : (run_stopping default_config 9 1 worked.worker).phase ≡ stopped
unfolding run_stopping start step try_pop
worked_ends = refl

restarted_thread :
    Reached default_config (start default_config 0 9 (stop default_config 9 1 worked))
restarted_thread =
    after
      (after
        (after
          (after (after (constructed table) (starts 0 7_200_000_000_000)) (between (works false 1)))
          (between (works false 1)))
        (stops 9 1 worked_ends))
      (starts 0 9)

Reached-IsOwned_example :
    IsOwned default_config (start default_config 0 9 (stop default_config 9 1 worked))
    × ((now : ℕ)
        → (n : ℕ) × EndsOrOverreads
            (run_stopping default_config n now
              (start default_config 0 9 (stop default_config 9 1 worked)).worker).phase)
Reached-IsOwned_example = Reached-IsOwned table_lib default_config restarted_thread

-- Two requests to link an account, of which the second has no code.
abbrev asked : DbWorker table_lib
asked = record (new_db_worker table_lib table 0) {
  phase = linking;
  link_jobs = record (empty_queue queue_max) {
    deque = job ∷ record job { connect_code = []; platform_user_id = codes "gdk_2" } ∷ [];
  };
}

run_events-HasAnswered_example :
    HasAnswered asked.link_jobs.deque asked.link_results.deque
      (run_events default_config (works_for (length asked.link_jobs.deque) 5) asked)
run_events-HasAnswered_example =
    run_events-HasAnswered table_lib default_config 5 asked refl (omega arith)

-- A request of a known player.
abbrev linked_client : LinkClient
linked_client = record { controller = some 4; player_uid = record { a = 1; b = 0; c = 0; d = 0 } }

abbrev expecting : ChatCapture plain
expecting = record capture { link_clients = (job.platform_user_id, linked_client) ∷ [] }

abbrev asked_once : DbWorker table_lib
asked_once = record asked { link_jobs = record (empty_queue queue_max) { deque = job ∷ [] } }

abbrev no_controllers : ℕ → WeakGet Controller
no_controllers handle = gone

is_expected : lookup job.platform_user_id expecting.link_clients ≡ some linked_client
unfolding lookup
is_expected = refl

is_known : guid_eq linked_client.player_uid nil_guid ≡ false
unfolding guid_eq
is_known = refl

answered_job-IsDeferred_example :
    IsDeferred job linked_client new_inject
      (run_events default_config (works_for 1 5) asked_once).1
      (deliver_from no_controllers
        (run_events default_config (works_for 1 5) asked_once).0.link_results.deque
        (run_events default_config (works_for 1 5) asked_once).0.link_results
        expecting)
answered_job-IsDeferred_example =
    answered_job-IsDeferred no_controllers default_config 5 expecting new_inject linked_client
      asked_once job (run_events default_config (works_for 1 5) asked_once).0.link_results refl
      is_expected is_known refl refl refl refl (omega arith) refl

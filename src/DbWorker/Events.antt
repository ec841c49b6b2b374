-- ===== src/DbWorker/Events.antt =====
-- The runs of the worker between the other parts of the program: the thread's steps in any number,
-- with what the game's thread does to the four queues between them.
use palworld_pal_crosschat.Base.{ℕ, zero, suc, Bool, true, List, [], ◌∷◌, ◌++◌}
use palworld_pal_crosschat.Config.Types.{Config}
use palworld_pal_crosschat.Queues.{OutboundMessage, LinkJob, push, try_pop}
use palworld_pal_crosschat.DbWorker.Mysql.{Mysql}
use palworld_pal_crosschat.DbWorker.State.{DbWorker}
use palworld_pal_crosschat.DbWorker.Worker.{Outcome, step}

-- A step of the thread, with the stop flag and the time that it reads; the capture of a message; a
-- request to link an account; the game's thread taking an inbound message or a link result.
pub data Event : Type 0 where
  works : Bool → ℕ → Event
  captures : OutboundMessage → Event
  asks : LinkJob → Event
  takes_inbound takes_result : Event

module _ {lib : Mysql} (config : Config) where
  unfoldable pub event_step : Event → DbWorker lib → Outcome lib
  event_step (works stop now) w = step config stop now w
  event_step (captures m) w = (record w { outbound = push w.outbound m }, [])
  event_step (asks job) w = (record w { link_jobs = push w.link_jobs job }, [])
  event_step takes_inbound w = (record w { inbound = (try_pop w.inbound).1 }, [])
  event_step takes_result w = (record w { link_results = (try_pop w.link_results).1 }, [])

  unfoldable pub run_events : List Event → DbWorker lib → Outcome lib
  unfolding event_step
  run_events [] w = (w, [])
  run_events (e ∷ es) w =
      let (w1, deeds) = event_step e w in let (w2, more) = run_events es w1 in (w2, deeds ++ more)

  -- The thread alone, with stop requested, for a number of steps.
  unfoldable pub run_stopping : ℕ → ℕ → DbWorker lib → DbWorker lib
  unfolding step
  run_stopping zero now w = w
  run_stopping (suc n) now w = run_stopping n now (step config true now w).0

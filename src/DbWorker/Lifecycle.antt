-- ===== src/DbWorker/Lifecycle.antt =====
-- `DbWorker::Start` and `DbWorker::Stop`, and the histories of their calls.
use palworld_pal_crosschat.Base.{
  ℕ, zero, suc, ◌+◌, ◌-◌, ◌≡◌, refl, sym, ap, ◌∙◌, subst, inl, inr, Bool, true, false, [], arith,
  if◌then◌else◌, Bool-cases, if_true, if_false, pos,
}
use palworld_pal_crosschat.Config.Types.{Config}
use palworld_pal_crosschat.DbWorker.Mysql.{Mysql}
use palworld_pal_crosschat.DbWorker.State.{at_top, stopped, DbWorker, new_db_worker}
use palworld_pal_crosschat.DbWorker.Worker.{step}
use palworld_pal_crosschat.DbWorker.Events.{
  Event, works, captures, asks, takes_inbound, takes_result, event_step, run_stopping,
}
use palworld_pal_crosschat.DbWorker.Ready.{IsSoundAt, IsSound}
use palworld_pal_crosschat.DbWorker.Soundness.{step_at-IsSound, event_step-IsSound}
use palworld_pal_crosschat.DbWorker.Stop.{EndsOrOverreads, run_stopping-EndsOrOverreads}

-- The object: the flag `m_started`, whether `m_thread` is joinable, and the worker's state with the
-- thread's variables. `threads` counts the threads that run ThreadMain.
pub record DbThread (lib : Mysql) : Type 0 where
  pub started : Bool
  pub joinable : Bool
  pub threads : ℕ
  pub worker : DbWorker lib

module _ {lib : Mysql} where
  -- The object as it is constructed, before its first start.
  abbrev pub new_thread : lib.Db → DbThread lib
  new_thread d = record {
    started = false;
    joinable = false;
    threads = 0;
    worker = record (new_db_worker lib d 0) { phase = stopped };
  }

  -- The variables with which ThreadMain begins; the members of the object stay.
  abbrev pub begin_thread : ℕ → DbWorker lib → DbWorker lib
  begin_thread now w = record w {
    conn = record w.conn { has_handle = false; stmts = [] };
    phase = at_top;
    backoff_sec = pos 1;
    last_poll = now - 3_600_000_000_000;
    cursor_ready = false;
  }

  abbrev pub launch : ℕ → DbThread lib → DbThread lib
  launch now o = record o {
    started = true;
    joinable = true;
    threads = o.threads + 1;
    worker = begin_thread now o.worker;
  }

  module _ (config : Config) where
    -- A join of the thread behind a request to stop, which returns after the thread's last step; `n` is
    -- the number of steps that the thread still takes.
    abbrev pub join_after : ℕ → ℕ → DbThread lib → DbThread lib
    join_after n now o =
        if o.joinable
        then record o {
          joinable = false;
          threads = o.threads - 1;
          worker = run_stopping config n now o.worker;
        }
        else o

    -- The assignment to `m_thread` would first stop and join a thread that it holds.
    unfoldable pub start : ℕ → ℕ → DbThread lib → DbThread lib
    start n now o = if o.started then o else launch now (join_after n now o)

    unfoldable pub stop : ℕ → ℕ → DbThread lib → DbThread lib
    stop n now o = join_after n now (record o { started = false })

    -- What happens beside the calls: the thread steps only while it exists.
    abbrev pub happens : Event → DbThread lib → DbThread lib
    happens (works flag now) o =
        if o.joinable then record o { worker = (step config flag now o.worker).0 } else o
    happens (captures m) o = record o { worker = (event_step config (captures m) o.worker).0 }
    happens (asks job) o = record o { worker = (event_step config (asks job) o.worker).0 }
    happens takes_inbound o = record o { worker = (event_step config takes_inbound o.worker).0 }
    happens takes_result o = record o { worker = (event_step config takes_result o.worker).0 }

    -- A call, or what happens between two calls. A call of `Stop` returns once the
    -- thread has ended in order.
    pub data Uses : DbThread lib → DbThread lib → Type 0 where
      starts : (n now : ℕ) {o : DbThread lib} → Uses o (start n now o)
      between : (e : Event) {o : DbThread lib} → Uses o (happens e o)
      stops :
          (n now : ℕ) {o : DbThread lib}
          → (run_stopping config n now o.worker).phase ≡ stopped
          → Uses o (stop n now o)

    -- The objects that a history of calls leads to.
    pub data Reached : DbThread lib → Type 0 where
      constructed : (d : lib.Db) → Reached (new_thread d)
      after : {o o' : DbThread lib} → Reached o → Uses o o' → Reached o'

    -- The thread is joinable exactly while the object is started, and it is then the only one; its
    -- connection is sound, and closed while no thread runs.
    abbrev pub IsOwned : DbThread lib → Type 0
    IsOwned o =
        (o.joinable ≡ o.started)
        × (o.threads ≡ (if o.started then 1 else 0))
        × IsSound o.worker
        × (o.started ≡ false → o.worker.phase ≡ stopped)

    run_stopping-IsSound :
        (n now : ℕ) (w : DbWorker lib) → IsSound w → IsSound (run_stopping config n now w)
    unfolding run_stopping step
    run_stopping-IsSound zero now w s = s
    run_stopping-IsSound (suc n) now w s =
        run_stopping-IsSound n now _ (step_at-IsSound config w.phase true now w refl s)

    begin_thread-IsSound :
        (now : ℕ) (w : DbWorker lib) → IsSoundAt stopped w → IsSound (begin_thread now w)
    begin_thread-IsSound now w (closed, apart) = inr (apart, refl)

    join_after-idle : (n now : ℕ) (o : DbThread lib) → o.joinable ≡ false → join_after n now o ≡ o
    join_after-idle n now o e = if_false (λ p. p ≡ o) o.joinable _ o e refl

    launch-IsOwned :
        (now : ℕ) (o : DbThread lib)
        → o.threads ≡ 0
        → IsSoundAt stopped o.worker
        → IsOwned (launch now o)
    launch-IsOwned now o none_runs closed =
        (refl, ap (λ n. n + 1) none_runs, begin_thread-IsSound now o.worker closed, λ e. cc)

    start-IsOwned : (n now : ℕ) (o : DbThread lib) → IsOwned o → IsOwned (start n now o)
    unfolding start
    start-IsOwned n now o (joins, one, sound, idle) = elim (Bool-cases o.started) [
      | inl e ↦
          if_true IsOwned o.started o (launch now (join_after n now o)) e (joins, one, sound, idle)
      | inr e ↦ if_false IsOwned o.started o (launch now (join_after n now o)) e (
          subst (λ free. IsOwned (launch now free)) (sym (join_after-idle n now o (joins ∙ e)))
            (launch-IsOwned now o (one ∙ rw e refl)
              (subst (λ phase. IsSoundAt phase o.worker) (idle e) sound)))
    ]

    happens-IsOwned : (e : Event) (o : DbThread lib) → IsOwned o → IsOwned (happens e o)
    unfolding event_step step
    happens-IsOwned (works flag now) o (joins, one, sound, idle) = elim (Bool-cases o.joinable) [
      | inl e ↦
          if_true IsOwned o.joinable _ o e (
            joins,
            one,
            step_at-IsSound config o.worker.phase flag now o.worker refl sound,
            λ f. cc,
          )
      | inr e ↦ if_false IsOwned o.joinable _ o e (joins, one, sound, idle)
    ]
    happens-IsOwned (captures m) o (joins, one, sound, idle) =
        (joins, one, event_step-IsSound config (captures m) o.worker sound, idle)
    happens-IsOwned (asks job) o (joins, one, sound, idle) =
        (joins, one, event_step-IsSound config (asks job) o.worker sound, idle)
    happens-IsOwned takes_inbound o (joins, one, sound, idle) =
        (joins, one, event_step-IsSound config takes_inbound o.worker sound, idle)
    happens-IsOwned takes_result o (joins, one, sound, idle) =
        (joins, one, event_step-IsSound config takes_result o.worker sound, idle)

    stop-IsOwned :
        (n now : ℕ) (o : DbThread lib)
        → (run_stopping config n now o.worker).phase ≡ stopped
        → IsOwned o
        → IsOwned (stop n now o)
    unfolding stop
    stop-IsOwned n now o ended (joins, one, sound, idle) = elim (Bool-cases o.joinable) [
      | inl e ↦
          if_true IsOwned o.joinable _ (record o { started = false }) e
            (refl, ground arith, run_stopping-IsSound n now o.worker sound, λ _. ended)
      | inr e ↦
          if_false IsOwned o.joinable _ (record o { started = false }) e
            (e, ground arith, sound, λ _. idle (sym joins ∙ e))
    ]

    Reached→IsOwned : {o : DbThread lib} → Reached o → IsOwned o
    Reached→IsOwned (constructed d) = (refl, refl, ((refl, refl), refl), λ _. refl)
    Reached→IsOwned (after before (starts n now)) = start-IsOwned n now _ (Reached→IsOwned before)
    Reached→IsOwned (after before (between e)) = happens-IsOwned e _ (Reached→IsOwned before)
    Reached→IsOwned (after before (stops n now ended)) =
        stop-IsOwned n now _ ended (Reached→IsOwned before)

-- After any history of calls of Start and Stop, with anything between them: the object has a thread
-- exactly while it is started, never two; the connection is sound, and closed while no thread runs; and
-- a call of Stop ends, since the thread stops within finitely many steps of the request, unless it reads
-- past a buffer.
pub Reached-IsOwned :
    (lib : Mysql) (config : Config) {o : DbThread lib}
    → Reached config o
    → IsOwned config o
      × ((now : ℕ) → (n : ℕ) × EndsOrOverreads (run_stopping config n now o.worker).phase)
Reached-IsOwned lib config {o} history =
    (Reached→IsOwned config history, λ now. run_stopping-EndsOrOverreads lib config now o.worker)

-- ===== src/DbWorker/Answers.antt =====
-- The loop over the link jobs.
use palworld_pal_crosschat.Base.{
  ℕ, ◌+◌, ◌≤◌, ◌<◌, ◌≡◌, refl, sym, ap, ◌∙◌, subst, true, false, not, ◌&&◌, ◌||◌, some, List, [],
  ◌∷◌, ◌++◌, arith, if_both, length, is_empty, length-append, Bytes,
}
use mathlib.Core.List.{append_assoc, append-nil}
use palworld_pal_crosschat.Config.Types.{Config}
use palworld_pal_crosschat.Queues.{LinkJob, LinkResult, push, try_pop, pop_deque}
use palworld_pal_crosschat.Queues.History.{push-room}
use palworld_pal_crosschat.DbWorker.Mysql.{
  Mysql, Fetch, fetched, truncated, fetch_failed, run_stmt, ◌and_then◌, text_param, link_conflict,
  link_lookup,
}
use palworld_pal_crosschat.DbWorker.Link.{
  database_error, missing_id, already_linked, fetch_is_0, complete_link, after_lookup, lookup_code,
  check_conflict, process_link_job,
}
use palworld_pal_crosschat.DbWorker.State.{linking, DbWorker}
use palworld_pal_crosschat.DbWorker.Worker.{
  Deed, answered, Outcome, link_with, link_step, step_at, step,
}
use palworld_pal_crosschat.DbWorker.Events.{event_step, run_events}
use palworld_pal_crosschat.DbWorker.Drain.{works_for}

-- A job is answered by a notice that is not empty, which goes into a result for its platform id.
abbrev pub Answers : LinkJob → Deed → LinkResult → Type 0
Answers job deed result =
    (deed ≡ answered job result.notice)
    × (is_empty result.notice ≡ false)
    × (result.platform_user_id ≡ job.platform_user_id)

abbrev pub AnswersEach : List LinkJob → List Deed → List LinkResult → Type 0
AnswersEach [] [] [] = Unit
AnswersEach (job ∷ jobs) (deed ∷ deeds) (result ∷ results) =
    Answers job deed result × AnswersEach jobs deeds results
AnswersEach _ _ _ = true ≡ false

-- The thread stands in the loop with no job left, and the results that it added answer the jobs.
abbrev pub HasAnswered : {lib : Mysql} → List LinkJob → List LinkResult → Outcome lib → Type 0
HasAnswered jobs before (w, deeds) =
    (w.phase ≡ linking)
    × (w.link_jobs.deque ≡ [])
    × ((results : List LinkResult) × (w.link_results.deque ≡ before ++ results)
        × AnswersEach jobs deeds results)

module _ (lib : Mysql) where
  -- The notice of an outcome is not empty.
  abbrev Tells : Bytes × lib.Db → Type 0
  Tells (notice, _) = is_empty notice ≡ false

  complete_link-Tells : (job : LinkJob) (d : lib.Db) → Tells (complete_link lib job d)
  unfolding complete_link
  complete_link-Tells job d = ground arith

  after_lookup-Tells :
      (job : LinkJob) (rows : List Fetch) (d : lib.Db) → Tells (after_lookup lib job rows d)
  unfolding after_lookup
  after_lookup-Tells job [] d = refl
  after_lookup-Tells job (fetch_failed ∷ _) d = refl
  after_lookup-Tells job (fetched _ ∷ _) d = complete_link-Tells job d
  after_lookup-Tells job (truncated _ ∷ _) d = complete_link-Tells job d

  lookup_code-Tells : (job : LinkJob) (d : lib.Db) → Tells (lookup_code lib job d)
  unfolding lookup_code
  lookup_code-Tells job d =
      let (ran, d1) = run_stmt lib link_lookup (text_param job.connect_code ∷ []) d in
      let (stored, d2) = (lib.bind_result link_lookup and_then lib.store_result link_lookup) d1 in
      if_both Tells (not ran) (database_error, d1) _ refl
        (if_both Tells (not stored) (database_error, lib.free_result link_lookup d2)
          (after_lookup lib job (lib.fetches link_lookup d2) (lib.free_result link_lookup d2)) refl
          (after_lookup-Tells job (lib.fetches link_lookup d2) (lib.free_result link_lookup d2)))

  check_conflict-Tells : (job : LinkJob) (d : lib.Db) → Tells (check_conflict lib job d)
  unfolding check_conflict
  check_conflict-Tells job d =
      let (ran, d1) = run_stmt lib link_conflict (text_param job.platform_user_id ∷ []) d in
      let (stored, d2) =
        (lib.bind_result link_conflict and_then lib.store_result link_conflict) d1 in
      if_both Tells (not ran) (database_error, d1) _ refl
        (if_both Tells (stored && fetch_is_0 (lib.fetches link_conflict d2))
          (already_linked, lib.free_result link_conflict d2)
          (lookup_code lib job (lib.free_result link_conflict d2)) refl
          (lookup_code-Tells job (lib.free_result link_conflict d2)))

  process_link_job-Tells : (job : LinkJob) (d : lib.Db) → Tells (process_link_job lib job d)
  unfolding process_link_job
  process_link_job-Tells job d =
      if_both Tells (is_empty job.connect_code || is_empty job.platform_user_id) (missing_id, d)
        (check_conflict lib job d) refl (check_conflict-Tells job d)

module _ {lib : Mysql} (config : Config) where
  link_step-cons :
      (w : DbWorker lib) (job : LinkJob) (jobs : List LinkJob)
      → w.link_jobs.deque ≡ job ∷ jobs
      → link_step config w
        ≡ link_with config (record w { link_jobs = record w.link_jobs { deque = jobs } }) (some job)
  unfolding link_step try_pop pop_deque
  link_step-cons w job jobs e =
      ap (λ r. link_with config (record w { link_jobs = r.1 }) r.0) (ap (pop_deque w.link_jobs) e)

  -- One round at a job that stands in front.
  abbrev IsAnswered : DbWorker lib → LinkJob → List LinkJob → Outcome lib → Type 0
  IsAnswered w job jobs (w', deeds) =
      (w'.phase ≡ linking)
      × (w'.link_jobs.deque ≡ jobs)
      × (w'.link_results.max_size ≡ w.link_results.max_size)
      × ((result : LinkResult) × (w'.link_results.deque ≡ w.link_results.deque ++ result ∷ [])
          × (deeds ≡ answered job result.notice ∷ [])
          × (is_empty result.notice ≡ false)
          × (result.platform_user_id ≡ job.platform_user_id))

  link_with-IsAnswered :
      (w : DbWorker lib) (job : LinkJob) (jobs : List LinkJob)
      → w.phase ≡ linking
      → length w.link_results.deque < w.link_results.max_size
      → IsAnswered w job jobs (
          link_with config
            (record w { link_jobs = record w.link_jobs { deque = jobs } })
            (some job))
  unfolding link_with push
  link_with-IsAnswered w job jobs p room = (
    p,
    refl,
    ground arith,
    (
      record {
        notice = (process_link_job lib job w.conn.db).0;
        platform_user_id = job.platform_user_id;
      },
      push-room w.link_results _ room,
      refl,
      process_link_job-Tells lib job w.conn.db,
      refl,
    ),
  )

  step-IsAnswered :
      (now : ℕ) (w : DbWorker lib) (job : LinkJob) (jobs : List LinkJob)
      → w.phase ≡ linking
      → w.link_jobs.deque ≡ job ∷ jobs
      → length w.link_results.deque < w.link_results.max_size
      → IsAnswered w job jobs (step config false now w)
  unfolding step step_at
  step-IsAnswered now w job jobs p e room =
      subst (IsAnswered w job jobs)
        (sym (ap (λ phase. step_at config phase false now w) p ∙ link_step-cons w job jobs e))
        (link_with-IsAnswered w job jobs p room)

  pub answers_from :
      (jobs : List LinkJob) (now : ℕ) (w : DbWorker lib)
      → w.phase ≡ linking
      → w.link_jobs.deque ≡ jobs
      → length w.link_results.deque + length jobs ≤ w.link_results.max_size
      → HasAnswered jobs w.link_results.deque (run_events config (works_for (length jobs) now) w)
  unfolding run_events event_step
  answers_from [] now w p e room = (p, e, ([], sym (append-nil w.link_results.deque), tt))
  answers_from (job ∷ jobs) now w p e room =
      let (p1, e1, same, (result, added, deed, told, own)) =
        step-IsAnswered now w job jobs p e (omega arith) in
      let w1 = (step config false now w).0 in
      let room1 : length w1.link_results.deque + length jobs ≤ w1.link_results.max_size =
        ground
          (arith, ap length added, length-append w.link_results.deque (result ∷ []), same, room) in
      let (p2, e2, (results, more, each)) = answers_from jobs now w1 p1 e1 room1 in
      (
        p2,
        e2,
        (
          result ∷ results,
          more
              ∙ (ap (λ l. l ++ results) added
                  ∙ append_assoc w.link_results.deque (result ∷ []) results),
          subst
              (λ d.
                AnswersEach (job ∷ jobs)
                  (d ++ (run_events config (works_for (length jobs) now) w1).1) (result ∷ results))
              (sym deed) ((refl, told, own), each),
        ),
      )

-- Whatever the database answers, where the queue of results has room for all, no stop is requested and
-- nothing else comes in between, the loop over the link jobs ends in as many rounds as there are jobs:
-- each job has got one notice that is not empty, in the order of the queue, as a result with its own
-- platform id behind the results that waited.
pub run_events-HasAnswered :
    (lib : Mysql) (config : Config) (now : ℕ) (w : DbWorker lib)
    → w.phase ≡ linking
    → length w.link_results.deque + length w.link_jobs.deque ≤ w.link_results.max_size
    → HasAnswered w.link_jobs.deque w.link_results.deque
        (run_events config (works_for (length w.link_jobs.deque) now) w)
run_events-HasAnswered lib config now w p room =
    answers_from config w.link_jobs.deque now w p refl room

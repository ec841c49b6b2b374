-- ===== src/DbWorker/Notice.antt =====
-- The answers to link jobs.
use palworld_pal_crosschat.Base.{
  ◌≡◌, ◌≢◌, Bool, true, false, ◌&&◌, ◌||◌, List, [], ◌∷◌, is_empty, Bytes,
}
use palworld_pal_crosschat.Queues.{LinkJob}
use palworld_pal_crosschat.DbWorker.Mysql.{
  Mysql, link_complete, link_lookup, link_conflict, Param, text_param, Fetch, fetched, truncated,
  run_stmt, ◌and_then◌,
}
use palworld_pal_crosschat.DbWorker.Link.{fetch_is_0, link_done}

-- The parameters of the UPDATE that links an account.
abbrev pub complete_params : LinkJob → List Param
complete_params job =
    text_param job.platform
    ∷ text_param job.user_id
    ∷ text_param job.platform_user_id
    ∷ text_param job.player_name
    ∷ text_param job.connect_code
    ∷ []

-- Whether the fetch gave a row.
abbrev pub has_row : List Fetch → Bool
has_row (fetched _ ∷ _) = true
has_row (truncated _ ∷ _) = true
has_row _ = false

module _ (lib : Mysql) (job : LinkJob) where
  abbrev ran_conflict : lib.Db → Bool × lib.Db
  ran_conflict d = run_stmt lib link_conflict (text_param job.platform_user_id ∷ []) d

  abbrev stored_conflict : lib.Db → Bool × lib.Db
  stored_conflict d =
      (lib.bind_result link_conflict and_then lib.store_result link_conflict) (ran_conflict d).1

  abbrev after_conflict : lib.Db → lib.Db
  after_conflict d = lib.free_result link_conflict (stored_conflict d).1

  -- The query for another link of the account ran, and a row of it was not fetched.
  abbrev pub IsUnlinked : lib.Db → Type 0
  IsUnlinked d =
      ((ran_conflict d).0 ≡ true)
      × (((stored_conflict d).0 && fetch_is_0 (lib.fetches link_conflict (stored_conflict d).1))
          ≡ false)

  abbrev ran_lookup : lib.Db → Bool × lib.Db
  ran_lookup d = run_stmt lib link_lookup (text_param job.connect_code ∷ []) d

  abbrev stored_lookup : lib.Db → Bool × lib.Db
  stored_lookup d =
      (lib.bind_result link_lookup and_then lib.store_result link_lookup) (ran_lookup d).1

  -- The query for the code ran, and gave a row.
  abbrev pub IsKnown : lib.Db → Type 0
  IsKnown d =
      ((ran_lookup d).0 ≡ true)
      × ((stored_lookup d).0 ≡ true)
      × (has_row (lib.fetches link_lookup (stored_lookup d).1) ≡ true)

  -- The UPDATE with the job's parameters ran last and changed a row.
  abbrev pub IsUpdated : lib.Db → lib.Db → Type 0
  IsUpdated d0 d =
      (run_stmt lib link_complete (complete_params job) d0 ≡ (true, d))
      × (lib.affected_rows link_complete d ≢ 0)

  -- A claim of the final database, where the notice is the one of success.
  abbrev Earns : (lib.Db → Type 0) → Bytes × lib.Db → Type 0
  Earns P (notice, d) = notice ≡ link_done → P d

  abbrev IsRowUpdated : List Fetch → lib.Db → lib.Db → Type 0
  IsRowUpdated fetches d d' = (has_row fetches ≡ true) × IsUpdated d d'

  -- What the database must have said of the code, and the UPDATE behind it.
  abbrev pub IsCompleted : lib.Db → lib.Db → Type 0
  IsCompleted d d' = IsKnown d × IsUpdated (lib.free_result link_lookup (stored_lookup d).1) d'

  -- What the database must have said of the account, and then of the code.
  abbrev IsLinkable : lib.Db → lib.Db → Type 0
  IsLinkable d d' = IsUnlinked d × IsCompleted (after_conflict d) d'

  -- What a success of the job says of the database.
  abbrev pub IsEarned : lib.Db → lib.Db → Type 0
  IsEarned d d' =
      ((is_empty job.connect_code || is_empty job.platform_user_id) ≡ false)
      × IsUnlinked d
      × IsCompleted (after_conflict d) d'

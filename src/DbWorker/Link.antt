-- ===== src/DbWorker/Link.antt =====
-- `process_link_job`: the notice that it pushes for the job, once on every path.
use palworld_pal_crosschat.Base.{
  Bool, true, false, not, ◌&&◌, ◌||◌, List, [], ◌∷◌, ◌==◌, if◌then◌else◌, is_empty, Bytes, codes,
}
use palworld_pal_crosschat.Queues.{LinkJob}
use palworld_pal_crosschat.DbWorker.Mysql.{
  link_lookup, link_conflict, link_complete, text_param, Fetch, fetched, truncated, fetch_failed,
  Mysql, run_stmt, ◌and_then◌,
}

abbrev pub missing_id : Bytes
missing_id = codes "Discord link failed: missing account id."

abbrev pub database_error : Bytes
database_error = codes "Discord link failed: database error."

abbrev pub already_linked : Bytes
already_linked = codes "This in-game account is already linked to Discord."

abbrev pub invalid_code : Bytes
invalid_code = codes "Invalid Discord connect code."

abbrev pub link_done : Bytes
link_done = codes "Discord account linked successfully."

-- `mysql_stmt_fetch(…) == 0`
abbrev pub fetch_is_0 : List Fetch → Bool
fetch_is_0 (fetched _ ∷ _) = true
fetch_is_0 _ = false

module _ (lib : Mysql) where
  open lib use {Db, bind_result, store_result, fetches, free_result, affected_rows}

  unfoldable pub complete_link : LinkJob → Db → Bytes × Db
  complete_link job d =
      let (ran, d') =
        run_stmt lib link_complete
          (text_param job.platform
            ∷ text_param job.user_id
            ∷ text_param job.platform_user_id
            ∷ text_param job.player_name
            ∷ text_param job.connect_code
            ∷ [])
          d in
      if not ran
      then (database_error, d')
      else if affected_rows link_complete d' == 0
      then (invalid_code, d')
      else (link_done, d')

  -- What the fetch of the connect code says; the result is free by then.
  unfoldable pub after_lookup : LinkJob → List Fetch → Db → Bytes × Db
  unfolding complete_link
  after_lookup job [] d = (invalid_code, d)
  after_lookup job (fetch_failed ∷ _) d = (database_error, d)
  after_lookup job (fetched _ ∷ _) d = complete_link job d
  after_lookup job (truncated _ ∷ _) d = complete_link job d

  unfoldable pub lookup_code : LinkJob → Db → Bytes × Db
  unfolding after_lookup
  lookup_code job d =
      let (ran, d1) = run_stmt lib link_lookup (text_param job.connect_code ∷ []) d in
      if not ran
      then (database_error, d1)
      else (let (stored, d2) = (bind_result link_lookup and_then store_result link_lookup) d1 in
          if not stored
          then (database_error, free_result link_lookup d2)
          else after_lookup job (fetches link_lookup d2) (free_result link_lookup d2))

  unfoldable pub check_conflict : LinkJob → Db → Bytes × Db
  unfolding lookup_code
  check_conflict job d =
      let (ran, d1) = run_stmt lib link_conflict (text_param job.platform_user_id ∷ []) d in
      if not ran
      then (database_error, d1)
      else (let (stored, d2) = (bind_result link_conflict and_then store_result link_conflict) d1 in
          if stored && fetch_is_0 (fetches link_conflict d2)
          then (already_linked, free_result link_conflict d2)
          else lookup_code job (free_result link_conflict d2))

  unfoldable pub process_link_job : LinkJob → Db → Bytes × Db
  unfolding check_conflict
  process_link_job job d =
      if is_empty job.connect_code || is_empty job.platform_user_id
      then (missing_id, d)
      else check_conflict job d

-- ===== src/DbWorker/Connection.antt =====
-- The class `MysqlConnection`: its handle, and its statements that are not null.
use palworld_pal_crosschat.Base.{
  Bool, true, false, not, List, [], ◌∷◌, ◌++◌, ltb, if◌then◌else◌, length, Bytes, codes,
}
use palworld_pal_crosschat.Config.Types.{Config}
use palworld_pal_crosschat.DbWorker.Mysql.{
  Stmt, insert_message, select_messages, cursor_upsert, max_id, link_lookup, link_conflict,
  link_complete, Mysql,
}

abbrev pub all_stmts : List Stmt
all_stmts =
    insert_message ∷ select_messages ∷ cursor_upsert ∷ max_id ∷ link_lookup ∷ link_conflict
    ∷ link_complete ∷ []

abbrev pub sql : Stmt → Bytes
sql insert_message =
    codes "INSERT INTO crosschat_messages (origin, sender_name, sender_id, guild_name, message) "
    ++ codes "VALUES (?, ?, ?, ?, ?)"
sql select_messages =
    codes "SELECT id, origin, sender_name, sender_id, guild_name, message "
    ++ codes "FROM crosschat_messages WHERE id > ? AND origin != ? ORDER BY id ASC LIMIT ?"
sql cursor_upsert =
    codes "INSERT INTO crosschat_cursors (consumer, last_id) VALUES (?, ?) "
    ++ codes "ON DUPLICATE KEY UPDATE last_id = VALUES(last_id)"
sql max_id = codes "SELECT COALESCE(MAX(id), 0) FROM crosschat_messages"
sql link_lookup = codes "SELECT DiscordId FROM crosschat_players WHERE ConnectCode = ? LIMIT 1"
sql link_conflict =
    codes "SELECT DiscordId FROM crosschat_players "
    ++ codes "WHERE PlatformUserId = ? AND UserId IS NOT NULL AND UserId != '' LIMIT 1"
sql link_complete =
    codes "UPDATE crosschat_players SET Platform = ?, UserId = ?, PlatformUserId = ?, "
    ++ (codes "PlayerName = ?, ConnectCode = NULL, LinkedAt = NOW() "
        ++ codes "WHERE ConnectCode = ?")

module _ (lib : Mysql) where
  open lib use {Db, init, real_connect, close, stmt_init, stmt_close, stmt_prepare}

  pub record Connection : Type 0 where
    pub db : Db
    pub has_handle : Bool
    pub stmts : List Stmt

  -- `mysql_stmt_close` of each statement that is not null, in their order.
  unfoldable pub close_all : List Stmt → Db → Db
  close_all [] d = d
  close_all (stmt ∷ stmts) d = close_all stmts (stmt_close stmt d)

  unfoldable pub free_stmts : Connection → Connection
  unfolding close_all
  free_stmts c = record c { db = close_all c.stmts c.db; stmts = [] }

  unfoldable pub close_connection : Connection → Connection
  unfolding free_stmts
  close_connection c =
      let freed = free_stmts c in
      if freed.has_handle then record freed { db = close freed.db; has_handle = false } else freed

  -- The handle stays when the connection fails: the next `Close` frees it.
  unfoldable pub connect : Config → Connection → Bool × Connection
  unfolding close_connection
  connect cfg c =
      let closed = close_connection c in
      let (has_handle, d) = init closed.db in
      if not has_handle
      then (false, record closed { db = d })
      else (let (done, d') =
            real_connect cfg.mysql_host cfg.mysql_user cfg.mysql_password cfg.mysql_database
              cfg.mysql_port d in
          (done, record closed { db = d'; has_handle = true }))

  -- `mysql_stmt_init` of all: the statements that are not null.
  unfoldable pub init_all : List Stmt → Db → List Stmt × Db
  init_all [] d = ([], d)
  init_all (stmt ∷ stmts) d =
      let (made, d1) = stmt_init stmt d in
      let (rest, d2) = init_all stmts d1 in (if made then stmt ∷ rest else rest, d2)

  -- `mysql_stmt_prepare` of each, up to the first that fails.
  unfoldable pub prepare_all : List Stmt → Db → Bool × Db
  prepare_all [] d = (true, d)
  prepare_all (stmt ∷ stmts) d =
      let (done, d') = stmt_prepare stmt (sql stmt) d in
      let rest = prepare_all stmts d' in if done then rest else (false, d')

  unfoldable pub prepare_statements : Connection → Bool × Connection
  unfolding free_stmts init_all prepare_all
  prepare_statements c =
      let freed = free_stmts c in
      let (stmts, d) = init_all all_stmts freed.db in
      let made = record freed { db = d; stmts = stmts } in
      if ltb (length stmts) (length all_stmts)
      then (false, free_stmts made)
      else (let (done, d') = prepare_all all_stmts d in (done, record made { db = d' }))

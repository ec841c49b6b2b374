-- ===== src/DbWorker/Mysql.antt =====
-- What src/DbWorker.cpp uses of the MySQL client library. The database and the library's state are one
-- value, which every call takes and gives back.
use palworld_pal_crosschat.Base.{ℕ, Bool, false, Option, List, if◌then◌else◌, Bytes, ℤ}

-- The seven prepared statements.
pub data Stmt : Type 0 where
  insert_message select_messages cursor_upsert max_id link_lookup link_conflict link_complete : Stmt

pub data Param : Type 0 where
  text_param : Bytes → Param
  i64_param i32_param : ℤ → Param

-- A column of a row; a NULL is `none`.
abbrev pub Column : Type 0
Column = Option Bytes

pub record Row : Type 0 where
  pub id : ℤ
  pub origin : Column
  pub sender_name : Column
  pub sender_id : Column
  pub guild_name : Column
  pub message : Column

-- What a call of mysql_stmt_fetch gives: a row (0), a row of which a column was longer than its buffer
-- (MYSQL_DATA_TRUNCATED), or an error.
pub data Fetch : Type 0 where
  fetched truncated : Row → Fetch
  fetch_failed : Fetch

-- A call that can fail gives `true` for success. `fetches` is what the calls of mysql_stmt_fetch give,
-- one after the other, for the result of the statement's last execution, up to MYSQL_NO_DATA.
pub record Mysql : Type 1 where
  pub Db : Type 0
  pub init : Db → Bool × Db
  pub real_connect : Bytes → Bytes → Bytes → Bytes → ℤ → Db → Bool × Db
  pub close : Db → Db
  pub stmt_init : Stmt → Db → Bool × Db
  pub stmt_close : Stmt → Db → Db
  pub stmt_prepare : Stmt → Bytes → Db → Bool × Db
  pub bind_param : Stmt → List Param → Db → Bool × Db
  pub execute : Stmt → Db → Bool × Db
  pub bind_result : Stmt → Db → Bool × Db
  pub store_result : Stmt → Db → Bool × Db
  pub fetches : Stmt → Db → List Fetch
  pub free_result : Stmt → Db → Db
  pub affected_rows : Stmt → Db → ℕ

-- A call of the library after one that succeeds: `a() && b()`.
abbrev pub ◌and_then◌ : {D : Type 0} → (D → Bool × D) → (D → Bool × D) → D → Bool × D
◌and_then◌ a b d = let (done, d') = a d in if done then b d' else (false, d')

infixr 30 ◌and_then◌
-- `mysql_stmt_bind_param(…) != 0 || mysql_stmt_execute(…) != 0`, negated.
abbrev pub run_stmt : (lib : Mysql) → Stmt → List Param → lib.Db → Bool × lib.Db
run_stmt lib stmt params = lib.bind_param stmt params and_then lib.execute stmt

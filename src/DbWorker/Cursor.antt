-- ===== src/DbWorker/Cursor.antt =====
-- The cursor of the poll: which messages of the table the worker queues, and in which order.
use palworld_pal_crosschat.Config.Types.{Config}
use palworld_pal_crosschat.DbWorker.Mysql.{Mysql}
use palworld_pal_crosschat.DbWorker.State.{DbWorker}

-- ===== src/DbWorker.antt =====
-- src/DbWorker.h and src/DbWorker.cpp: the thread that carries the queues to and from MySQL. The
-- client library is the parameter `Mysql` (Mysql), the connection and its statements stand in
-- Connection, rows in Rows, link jobs in Link, the state and its lambdas in State, the thread's loop, as
-- a machine of small steps, in Worker, its waits in Sleep, and Start and Stop in Lifecycle. Its runs
-- stand in Events; the other modules are about them.
pub mod Mysql
pub mod Connection
pub mod Rows
pub mod Link
pub mod State
pub mod Worker
pub mod Columns
pub mod Notice
pub mod Cursor
pub mod Drain
pub mod Answers
pub mod Stop
pub mod Sleep
pub mod Lifecycle
pub mod Soundness
pub mod Backoff
pub mod Events
pub mod Ready
pub mod Fresh
pub mod Aligned

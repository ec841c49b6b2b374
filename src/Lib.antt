-- ===== src/Lib.antt =====
-- A model of PalCrosschat, the Palworld server mod that relays chat between servers and Discord, and
-- theorems about it.
--
-- The mod hooks the server's chat. On the game's thread ChatCapture reads a line, asks WordFilter
-- whether its sender is muted or a pattern forbids it, and puts a public line into the outbound queue;
-- a database worker on a thread of its own carries the queues to and from MySQL, and ChatInject shows
-- what comes in, to the players that AudienceTracker knows. WebhookWorker posts the filter's hits.
--
-- Which file models which part (src/X.cpp stands for src/X.h as well):
--   Base          lists, texts as lists of bytes, maps with string keys, and integers.
--   Sanitize      src/Sanitize.cpp: SanitizeMessage is sanitize_message, and so on.
--   Queues        src/Queues.h: the messages and BoundedQueue; Push is push, TryPop is try_pop.
--   Guid          FormatGuid of src/ChatCapture.cpp and TryParseGuid of src/ChatInject.cpp.
--   Engine        the reads of the game's objects in src/ChatCapture.cpp, src/PlatformId.cpp and
--                 src/SehUtil.cpp. An object is the record of what its reads return.
--   PlatformId    src/PlatformId.cpp.
--   ChatApi       the categories of src/PalChatApi.h.
--   Exceptions    the catch clauses of src/ChatCapture.cpp and src/ChatInject.cpp, with what they log.
--   Config        src/Config.cpp: the search for the file (Search) and LoadConfig, which is load_config,
--                 over the file system and a JSON library as parameters.
--   WordFilter    src/WordFilter.cpp, over a library of regular expressions as a parameter.
--   Replace       the replacing loops of src/ChatFormat.cpp and src/ChatCapture.cpp.
--   ChatFormat    src/ChatFormat.cpp.
--   Audience      src/Audience.cpp: the roster (Defs), the hooks and joins (Hooks).
--   Webhook       src/Webhook.cpp, over what WinHTTP answers as a parameter.
--   ChatInject    src/ChatInject.cpp: its queue of deferred actions, CanInjectNow (Ready), the calls of
--                 the game (Game and Display), the lines of chat (Lines), FlushDeferred and Drain, whose
--                 loop is compared with plain lists in Inbound.
--   ChatCapture   src/ChatCapture.cpp: the hook's parameters (Hook), HandleHook (Stages and Handle),
--                 the function that the engine calls (Entry), and FlushDeferred and DeliverLinkResult
--                 (Deferred).
--   DbWorker      src/DbWorker.cpp: the connection (Connection), the rows (Rows), the link jobs (Link),
--                 the thread's state and its lambdas (State), ThreadMain as a machine (Worker), its
--                 waits (Sleep), and Start and Stop (Lifecycle), over the MySQL client as a parameter
--                 (Mysql). Events has the runs of the machine between the captures, requests and pops
--                 of the game's thread.
--   PalCrosschat  src/PalCrosschat.cpp: the constructor, the update and the destructor. EndToEnd and
--                 Linked follow a line and a request to link through the mod and the database thread.
--   Tests         the theorems at concrete inputs.
--
-- A method that holds a mutex is one step from a state to a state. A null pointer is `none`, a throw of
-- a library is `none`, and a hardware fault that the code guards is one of the answers of the call. A
-- weak pointer is the handle of an object, and what it gives at one moment is a function of handles.
-- Times are nanoseconds of the steady clock, as arguments.
--
-- Loops are structural, but for the wait in slices, which recurses on the accessibility of the time that
-- remains, the replacing loop and the digits of a number. The replacing loop has
-- one unit of fuel more than the text has bytes, and each round but the last consumes one byte; a
-- number has fewer digits than its fuel, which is the number and one more.
--
-- The database thread is a step function: a step is one round of one of its loops, or half a round of
-- the loop over the outbound queue, and between two steps the game's thread may do anything to the
-- queues; within a step it does nothing.
--
-- The engine and the game are a parameter, a world that calls take and give back; every call of
-- ProcessEvent is kept in a list with its success.
--
-- An exception may stop a handler anywhere, so what it leaves of the state is an argument.
--
-- Integers: `backoff_sec` is an int with its wrap-around, and the end of a mute is in 64-bit signed
-- nanoseconds, also with its wrap-around; `drops` and the counts of relays are taken modulo 2 ^ 64.
--
-- What the other thread does during a step: a message that the database thread takes out of the outbound
-- queue is a state of its own until its INSERT ends, and the loop over the inbound queue is given what
-- arrives in each of its rounds. A round over a link job is one step, which is exact but
-- for requests that come in during it on a full queue of jobs.
--
-- Not modelled: the log, but for the lines about exceptions; the memory layout of the game's objects
-- (a field is looked up by its name, not by its offset); and the scheduler: a thread is its steps,
-- and a join is the steps that the thread still takes. LogConfigSummary only writes to the log. The
-- length of a mute in seconds, which the notice says, is the product of its minutes and 60, where the
-- source's int would overflow from 35791395 minutes on.
pub mod Base
pub mod Sanitize
pub mod Queues
pub mod Guid
pub mod Engine
pub mod Exceptions
pub mod PlatformId
pub mod ChatApi
pub mod Config
pub mod WordFilter
pub mod Replace
pub mod ChatFormat
pub mod Audience
pub mod Webhook
pub mod ChatInject
pub mod ChatCapture
pub mod DbWorker
pub mod PalCrosschat
pub mod Tests

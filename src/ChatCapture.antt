-- ===== src/ChatCapture.antt =====
-- src/ChatCapture.h and src/ChatCapture.cpp: the hook on EnterChat_Receive, and what it leaves for the
-- next update. Parsing and texts stand in Text, the hook's parameters in Hook, the state in State, the
-- hook's handler in Handle, the function that the engine calls in Entry, and the deferred work in
-- Deferred.
pub mod Text
pub mod Hook
pub mod State
pub mod Stages
pub mod Handle
pub mod Entry
pub mod Quiet
pub mod Privacy
pub mod Deferred
pub mod Commands
pub mod Delivery
pub mod Clear
pub mod Bounds

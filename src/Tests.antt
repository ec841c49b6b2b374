-- ===== src/Tests.antt =====
-- The theorems at concrete inputs.
mod Texts
mod Players
mod Settings
mod Chat
mod Database
mod Threads
mod Updates

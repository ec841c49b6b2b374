-- ===== src/Audience.antt =====
-- src/Audience.h and src/Audience.cpp: who is online, and on which platform. The roster's map iterates
-- in the order of its list. What a weak pointer gives at one moment is the argument `world`.
pub mod Defs
pub mod Lists
pub mod Online
pub mod Roster
pub mod Hooks
pub mod History
pub mod Joins

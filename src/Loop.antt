-- ===== src/Loop.antt =====
-- The event loop of a thread: `Core::worker` of src/Core/Core.cpp.
pub mod State
pub mod Queries
pub mod Events
pub mod Steady
pub mod Served
pub mod Kept
pub mod Lent
pub mod Run
pub mod Answered
pub mod Sequence
pub mod Reply
pub mod Misses
pub mod Learned
pub mod Requests
pub mod Start
pub mod Begun
pub mod Frame
pub mod Returned
pub mod Buffers
pub mod Refines
pub mod Life
pub mod Whole
pub mod Servers

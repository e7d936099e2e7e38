-- ===== src/Queue.antt =====
-- The cache writes that the handlers queue and that a thread of its own carries out:
-- src/Core/Thread/Operational.cpp and include/Core/Thread/Operational.hpp.
pub mod State
pub mod Worker
pub mod Safe
pub mod Stored

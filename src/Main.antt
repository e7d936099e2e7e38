-- ===== src/Main.antt =====
-- The server as a whole: its start, src/index.cpp, and what its threads do to the caches.
pub mod Start
pub mod Sound

-- ===== src/System.antt =====
-- The versions that the server has seen of its two tables: src/Cache/MmapSystem.cpp and
-- include/Cache/MmapSystem.hpp.
pub mod State
pub mod Table

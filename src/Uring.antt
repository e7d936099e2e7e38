-- ===== src/Uring.antt =====
-- The buffers that are lent to io_uring, and the data by which its completions are told apart:
-- src/Core/Uring/BufferPool.cpp and src/Core/Uring/Pipeline.cpp.
pub mod Pool
pub mod Sizes
pub mod Setup
pub mod Buffers
pub mod Pipeline
pub mod Completions
pub mod Held

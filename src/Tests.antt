-- ===== src/Tests.antt =====
-- Concrete runs: of the record cache, the IP group cache, and of the wire encodings, and of the response.
pub mod Records
pub mod Groups
pub mod Wire
pub mod Core
pub mod Geo
pub mod Sync
pub mod System
pub mod Uring
pub mod Queue
pub mod Database
pub mod Loop
pub mod Sequence
pub mod Served
pub mod Learned

-- ===== src/Sync.antt =====
-- The handler of the sync connection in `Core::worker` of src/Core/Core.cpp, through which the
-- caches are told of changes.
pub mod Params
pub mod Numbers
pub mod Key
pub mod Request
pub mod Handler
pub mod Response
pub mod Found
pub mod Safe
pub mod Refusals
pub mod Whole

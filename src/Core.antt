-- ===== src/Core.antt =====
-- The answer to a DNS query: `Core::handle` of src/Core/Core.cpp.
pub mod State
pub mod Answer
pub mod Respond
pub mod Fits
pub mod Sections
pub mod Count
pub mod Complete
pub mod Whole
pub mod All
pub mod Query
pub mod Read
pub mod Octets
pub mod Hit
pub mod Jobs
pub mod Write

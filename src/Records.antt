-- ===== src/Records.antt =====
-- The record cache.
pub mod State
pub mod Hash
pub mod Cells
pub mod Ops
pub mod Init
pub mod Probe
pub mod Valid
pub mod Push
pub mod Link
pub mod Append
pub mod Remove
pub mod Delete
pub mod ById
pub mod Update
pub mod Fresh
pub mod Get
pub mod Capacity
pub mod Unique
pub mod Walk
pub mod Lost

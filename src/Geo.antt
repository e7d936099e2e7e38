-- ===== src/Geo.antt =====
-- The IP groups that are kept in memory: src/DNS/Geo/Group.cpp and include/DNS/Geo/IpGroup.hpp.
pub mod State
pub mod Ops
pub mod Vectors
pub mod Cases
pub mod Index
pub mod Gap
pub mod Remove
pub mod Load
pub mod Reload
pub mod Version
pub mod Country

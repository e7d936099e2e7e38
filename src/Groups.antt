-- ===== src/Groups.antt =====
-- The IP group cache: class IpGroupEntry::Mmap of include/Cache/MmapIpGroup.hpp and
-- src/Cache/MmapIpGroup.cpp.
pub mod State
pub mod Cells
pub mod Ops
pub mod Deletion
pub mod Init
pub mod Probe
pub mod Update

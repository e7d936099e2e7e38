-- ===== src/Wire.antt =====
-- The wire encodings of include/Utils/Vector.hpp and src/Core/RData/RData.cpp. A string is the list
-- of its bytes.
pub mod Codec
pub mod Parse
pub mod Ipv4
pub mod RData
pub mod Labels
pub mod Names
pub mod Texts

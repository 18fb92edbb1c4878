-- ===== src/Utils.antt =====
-- src/utils.cpp
pub mod Bits
pub mod Packing
pub mod Copy
pub mod Paths
pub mod Names
pub mod Mkdir

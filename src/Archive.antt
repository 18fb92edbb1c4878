-- ===== src/Archive.antt =====
-- src/header.cpp, src/packer.cpp and src/unpack.cpp: the archive.
pub mod Reader
pub mod Header
pub mod Written
pub mod ReadBack
pub mod RoundTrip
pub mod Pack
pub mod Blocks
pub mod Tree
pub mod Unpack
pub mod Regular
pub mod Single
pub mod Forest
pub mod Links
pub mod Linked
pub mod Both
pub mod PackEnds
pub mod PackTree
pub mod Handle
pub mod Kept
pub mod Handles
pub mod Bytes

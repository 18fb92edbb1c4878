-- ===== src/Huffman.antt =====
-- src/huffman_tree.cpp: the tree that compresser and decompresser share.
mod Node
mod Build
pub mod ListQueue
pub mod Codes
pub mod Laws
pub use Node.*
unfoldable pub use Build.*

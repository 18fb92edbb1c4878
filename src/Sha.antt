-- ===== src/Sha.antt =====
-- src/sha_hash.cpp: a listing with the SHA-256 of each file below a path.
pub mod Digest
pub mod Hasher
pub mod Digits

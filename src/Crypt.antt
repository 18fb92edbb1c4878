-- ===== src/Crypt.antt =====
-- src/encrypt.cpp and src/decrypt.cpp
pub mod Openssl
pub mod Encrypt
pub mod Decrypt
pub mod Cipher
pub mod Buffers
pub mod RoundTrip
pub mod Safe
pub mod Handle

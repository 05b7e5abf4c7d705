-- ===== src/Util.antt =====
-- svr/library/networking/NetworkUtil.h and NetworkUtil.cpp: arithmetic helpers and hashes.
pub mod Crc
pub mod BitsRequired
pub mod Sequence
pub mod Hash
pub mod Signed
pub mod Portable
pub mod Template
pub mod Bswap
pub mod Clamp

-- ===== src/Protocol.antt =====
-- The protocols of a stream, common/abstractprotocol.h and common/abstractprotocol.cpp.
pub mod FrameValue
pub mod Checksum
pub mod Gcd
pub mod Vary
pub mod Uint128
pub mod Crc32c
pub mod Sign
mod Tests

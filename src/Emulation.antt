-- ===== src/Emulation.antt =====
-- The emulated devices of a port, server/packetbuffer.cpp, server/device.cpp and
-- server/emuldevice.cpp.
pub mod PacketBuffer
pub mod Device
pub mod Encap
pub mod Ip4
pub mod Ip6
pub mod Receive
mod Tests

-- ===== src/Client.antt =====
-- The client core, client/core/: the state of a port and its synchronisation with the server.
pub mod PortState
pub mod Session
mod Tests

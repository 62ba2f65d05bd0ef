-- ===== src/Rpc/Server.antt =====
-- rpc/pbrpc_server_core.h and rpc/pbrpc_server_core.cpp: `ServerController` and the `Connection`
-- of `TcpRpcServer`.
pub mod Controller
pub mod Connection

-- ===== src/Lib.antt =====
-- Ostinato, a packet crafter and traffic generator: its client talks to an agent (drone) by RPC.
--
-- The parts modelled and how they interact. The RPC wire protocol puts frames with a header of
-- eight bytes on a byte stream; a connection of the server takes them out by an incremental
-- parser, calls the protobuf service with a controller, and writes one answer for each. On the
-- other side the client keeps, for each port, the streams and device groups that the user wants
-- and the ids that the agent is known to have; from both it makes the plan of RPC calls that
-- synchronises them. A protocol of a stream makes its bytes from fields, with checksums; a
-- signature at the end of a packet names its stream. A port of the agent emulates devices that
-- answer ARP, neighbor discovery and echo requests.
--
-- Files.
--   Base: tests, lists, bits, and the ordered sets and maps that stand for std::set and std::map.
--   Rpc/Wire models rpc/pbrpc_core.h and rpc/pbrpc_core.cpp: encodeHeader, decodeHeader,
--     encodeFrame and FrameParser. Its children treat the codec (Codec), the relation of a stream
--     to its frames (Scan), a call of push (Stream, Chunks) and whole frames (Frames).
--   Rpc/Server/Controller and Rpc/Server/Connection model ServerController and
--     TcpRpcServer::Connection of rpc/pbrpc_server_core.h and rpc/pbrpc_server_core.cpp.
--   Client/PortState models client/core/port_state.h and client/core/port_state.cpp:
--     PortSyncState, ApplyPlan and PortState. Its children treat the sync sets (Sync), the runs
--     of calls (Edits) and the answers of each call (Requests).
--   Client/Session models ClientSession::apply of client/core/client_session.cpp, the comparison
--     of ids (ExactIds, Distinct), what its calls keep (Kept), what it takes over (Confirmed) and
--     how it ends (Apply), and hydrate with hydratePort (Hydrate, Settled). Serves is the
--     interface of an agent that does what it is asked for, a hypothesis of Success; Values,
--     Reached, Progress, Streams, Carried and Planned lead there.
--   Protocol/FrameValue, Protocol/Vary, Protocol/Checksum and Protocol/Gcd model
--     protocolFrameValue, its variable fields, the checksums, and gcd and lcm of AbstractProtocol
--     in common/abstractprotocol.cpp. The children of the first read bytes as bits (Bytes,
--     Shift), one field (Merge) and all fields (Concat); that of the second what a counter
--     changes (Local); those of the third one sum (Sum) and combined ones (Combine); those of the
--     last divisors (Divides), gcd (Stein) and lcm (Lcm).
--   Protocol/Uint128 models UInt128 of common/uint128.h: its operators as numbers (Arithmetic)
--     and its conversions (Bytes). Protocol/Crc32c models checksumCrc32C of common/crc32c.cpp,
--     with the division by bits (Linear) and the table against it (Bitwise).
--   Protocol/Sign models SignProtocol of common/sign.cpp: its scans over TLVs (Tlv) and over the
--     bytes that it writes itself (Trailer).
--   Emulation/PacketBuffer models server/packetbuffer.cpp: what its calls guarantee (Bounds),
--     what writes (Contents) and reads (Reads) do. Emulation/Device models server/device.cpp;
--     Emulation/Encap, Emulation/Ip4 and Emulation/Ip6 model server/emuldevice.cpp, and
--     Emulation/Receive the choice between them. Encap/Frame and Ip4/Arp are about the frames as
--     bytes, Ip4/Receive and Receive/Resolution about what a device does with an ARP packet.
--   Client/Session/Operations models the rest of client/core/client_session.cpp: connecting,
--     notifications, control, statistics and capture. Edited, Standing and Requests are about
--     what all of them keep, Notices about processNotifications.
--   Rpc/Client models TcpRpcClient of rpc/pbrpc_client_core.cpp from the request of a call to its
--     response: what it reads (Reads, Headers), the loop over frames (Replies) and a whole call
--     (Calls).
--   The modules named Tests run the definitions at small inputs.
--
-- How the code is rendered. Numbers are natural numbers, with the wrap-around of a fixed width
-- written as a remainder. A byte is a number below 256. A call that changes an object returns the
-- new state. The results of send and recv are lists of what the calls return; the protobuf
-- service, the generated messages and the blob readers are parameters. A callback is a number,
-- and those that were run stand in a log. Locks make each write of a connection one step. What
-- the virtual functions of a protocol return for its fields is a parameter, and so is the agent
-- that a session talks to, which answers each RPC or fails. An integer in memory is
-- little-endian.
--
-- Fuel. The parse loop gets the size of the buffer: a round consumes eight bytes or more. The
-- loop over a blob source gets the number of bytes to send, and a round sends one or more. The
-- reads of the RPC client get what they want and the number of events, its loop over frames the
-- bytes to come. The inner loop of a connection gets the number of frames that wait. to_string
-- gets five digits for 16 bits. The loops of gcd get the numbers whose size they reduce, and two
-- rounds fold 32 bits into 16.
--
-- Not modelled: sockets, threads and the listener of the RPC server; how the RPC client connects;
-- the Qt interface; the single packet protocols and the file formats; the capture and
-- transmission of packets by the operating system; the copies of other projects under extra.
pub mod Base
pub mod Rpc
pub mod Client
pub mod Protocol
pub mod Emulation

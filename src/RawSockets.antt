-- ===== src/RawSockets.antt =====
-- 21_raw_sockets: a UDP echo service written over raw packet sockets, its server and its client.
-- Checksum: ip_checksum; Clients: the server's table of clients; Packet: the fields of a packet and
-- create_reply_packet; Server: the loop of the server's main; the other modules prove.
pub mod Checksum
pub mod Clients
pub mod Packet
pub mod Server
pub mod Client
pub mod Echo
mod Examples

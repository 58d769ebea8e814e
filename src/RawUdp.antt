-- ===== src/RawUdp.antt =====
-- 16_sockets/part4_raw: clients that build their UDP packets by hand, their server, and the sniffer.
-- Programs: the packets, the loops, the server; Buffers: what is read back from a buffer; Listening: what
-- a client prints; Serving: what the server reads and sends back; Exchange: from a client to the server
-- and back.
pub mod Programs
pub mod Buffers
pub mod Listening
pub mod Serving
pub mod Exchange
mod Examples

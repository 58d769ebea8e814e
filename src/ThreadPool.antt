-- ===== src/ThreadPool.antt =====
-- 16_sockets/part2/pthread_pool_server: a server that makes a thread for each client, at most five.
-- Server: its steps; Slots: what holds in every state; Stuck: how slots get lost.
pub mod Server
pub mod Slots
pub mod Limit
pub mod Stuck
pub mod Losing
mod Examples

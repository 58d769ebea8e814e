-- ===== src/ThreadQueue.antt =====
-- 16_sockets/part2/consumer_producer: the queue of client descriptors and the server around it.
-- Queue: queue.c on a heap of nodes; Chain: what a linked queue holds; Fifo: queue.c against a list;
-- Server: the accept loop and the worker threads as steps; Order: what every run of them keeps; Shutdown:
-- the handler of SIGINT.
pub mod Queue
pub mod Chain
pub mod Fifo
pub mod Server
pub mod Invariant
pub mod Order
pub mod Shutdown
mod Examples

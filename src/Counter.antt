-- ===== src/Counter.antt =====
-- 11_threads/p3.c (p4.c is the same with a spinlock): five threads that count together. Threads: their
-- steps; Sums: sums over the threads; Mutex: what holds in every state; Ending: that they come to an end;
-- Rounds: a thread alone.
pub mod Threads
pub mod Sums
pub mod Mutex
pub mod Ending
pub mod Rounds
mod Examples

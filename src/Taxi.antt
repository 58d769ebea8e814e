-- ===== src/Taxi.antt =====
-- 22_fork_poll/main.c: a supervisor that forks driver processes and talks to them over pipes.
-- Registry: the table of drivers and the supervisor's descriptors; Driver: the child process;
-- Supervisor: the commands; the other modules prove.
pub mod Registry
pub mod Driver
pub mod Supervisor
pub mod Overlap
pub mod Session
mod Examples
pub mod Descriptors
pub mod Requests
pub mod Timeout
pub mod Dialogue

-- ===== src/Shell.antt =====
-- 10_processes/p3.c: a shell that runs one command after the other.
-- Round: a round of its loop; Rounds: what is run for a line, and at the end of the input.
pub mod Round
pub mod Rounds
mod Examples

-- ===== src/FileManager.antt =====
-- 09_vfs/mc: a file manager with two panels. Panel: mc.c; Keys: the loop of main; RoundTrip: into a
-- directory and back; Safety: what every key keeps; Blocks: the blocks of the entries;
-- Window: what is drawn.
pub mod Panel
pub mod Keys
pub mod RoundTrip
pub mod Safety
pub mod Blocks
pub mod Window
mod Examples

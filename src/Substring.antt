-- ===== src/Substring.antt =====
-- 03_pointers/p4.c: the search for a substring. Search: the program; First: what it finds.
pub mod Search
pub mod First
mod Examples

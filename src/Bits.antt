-- ===== src/Bits.antt =====
-- 01_bitwise_operations and 03_pointers/p1.c: the bits and bytes of a number.
pub mod Programs
pub mod Masks
pub mod Agree
mod Examples

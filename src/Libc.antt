-- ===== src/Libc.antt =====
-- The C library's text functions that the programs call, over byte lists: Text (comparison, prefixes,
-- cuts), Decimal (%d printed and scanned, atoi), Tokens (strtok_r), Input
-- (scanf of words, getchar, fgets).
pub mod Text
pub mod Decimal
pub mod Tokens
pub mod Input

-- ===== src/Arrays.antt =====
-- 02_arrays: filled, mirrored, triangular and spiral arrays. Programs: the four programs; Cells: what
-- stands where.
pub mod Programs
pub mod Cells
mod Examples

-- ===== src/Calculator.antt =====
-- 07_static_libs and 08_dynamic_libs: the calculator (the sources of the two are the same).
-- Menu: the programs.
pub mod Menu
mod Examples

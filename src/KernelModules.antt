-- ===== src/KernelModules.antt =====
-- 20_kernel_module: modules that keep a string of at most 20 bytes.
-- Handlers: what a read and a write of the file do; Contents: what a reader finds after a write.
pub mod Handlers
pub mod Contents
mod Examples

-- ===== src/Subscribers.antt =====
-- 06_dynamic_memory (and 04_structures, whose sources are the same): the list of subscribers.
pub mod Linked
pub mod Cells
pub mod Insert
pub mod Order
pub mod Placing
pub mod Deleting
pub mod Walking
pub mod Menu
pub mod Session
pub mod Typing
pub mod Examples

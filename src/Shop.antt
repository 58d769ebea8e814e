-- ===== src/Shop.antt =====
-- 11_threads/p5.c: a consumer and a producer over the rooms of a shop. Market: the bodies of their loops;
-- Conservation: what holds over any interleaving of them.
pub mod Market
pub mod Conservation
mod Examples

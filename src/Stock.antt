-- ===== src/Stock.antt =====
-- The loops of orders.service.ts and worker/main.ts over the items of an order: each updates the
-- inventory row of an item's SKU, and then a product, if that is called for.
pub mod Loop
mod Effect
pub use Effect.*

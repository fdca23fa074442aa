-- ===== src/Purchasing.antt =====
-- The purchase-order and purchase-return machines,
-- src/modules/admin-purchasing/admin-purchasing.state.ts, and what an order expects.
pub mod Orders
pub mod Returns
pub mod Sending

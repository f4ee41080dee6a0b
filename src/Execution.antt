-- ===== src/Execution.antt =====
-- Placing the orders of a strategy, src/core/order_execution.py.
pub mod Batch
pub mod Grid
pub mod Rsi
pub mod Placed
pub mod Kept
pub mod Examples

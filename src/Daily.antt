-- ===== src/Daily.antt =====
-- The daily step of the ranking strategy: `step_single_day` of
-- manager/backend/services/progression_manager.py.
pub mod Defs
pub mod Sell
pub mod Buy
pub mod Step
pub mod Holdings
pub mod Paid
pub mod SoldOut
pub mod SellOff
pub mod Net
pub mod Reconcile
pub mod Refunded
pub mod Settled
pub mod Examples

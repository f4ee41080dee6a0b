-- ===== src/Dca.antt =====
-- The schedules of regular purchases, src/core/dca_manager.py: when a schedule runs next, and the
-- `DcaManager` that keeps the schedules.
pub mod Times
pub mod Schedules
pub mod Manager
pub mod Price
pub mod Lookup
pub mod Lifetime
pub mod Later
pub mod Due
pub mod Place
pub mod Execute
pub mod Outcome
pub mod Waits
pub mod Ordered
pub mod Executed
pub mod Runs
pub mod Unpriced
pub mod Stale
pub mod Cash
pub mod Alerts
pub mod Warned
pub mod Shortages
pub mod Examples
pub mod Purchases

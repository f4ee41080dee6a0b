-- ===== src/Sync.antt =====
-- The synchronisation of the tracked orders with the exchanges, src/core/order_sync.py.
pub mod Defs
pub mod Linked
pub mod Cancel
pub mod Submit
pub mod Stop
pub mod Fill
pub mod Cycle
pub mod Cancelled
pub mod Filled
pub mod Ended
pub mod Stopped
pub mod Waiting
pub mod Failures
pub mod Examples

-- ===== src/Orders.antt =====
-- The order book of src/core/order_manager.py: its state, its methods, its index, and the table in
-- the database that mirrors it.
pub mod Defs
pub mod Manager
pub mod Index
pub mod Replace
pub mod Calls
pub mod Mirror
pub mod Groups
pub mod Examples

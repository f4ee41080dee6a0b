-- ===== src/Planner.antt =====
-- The planning of orders at tick prices: manager/backend/services/order_planner.py, and the ticks of
-- src/core/exchanges/common.py.
pub mod Ticks
pub mod Common
pub mod Plan
pub mod OnTick
pub mod Same
pub mod Examples

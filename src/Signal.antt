-- ===== src/Signal.antt =====
-- The signal engine, src/core/signal_engine.py: the search of a price for a target of the RSI, and
-- the alerts with their snoozes.
pub mod Search
pub mod Prices
pub mod Found
pub mod Snooze
pub mod Watch
pub mod Quiet
pub mod Examples

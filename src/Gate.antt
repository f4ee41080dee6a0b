-- ===== src/Gate.antt =====
-- The gate that every new order passes, src/core/trading_gate.py, with the caps on the open exposure
-- of src/core/parsers.py.
pub mod Halt
pub mod Defs
pub mod Halted
pub mod Rules
pub mod Examples

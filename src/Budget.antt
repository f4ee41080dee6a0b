-- ===== src/Budget.antt =====
-- The budget of a strategy and its ledger: manager/backend/services/budget_manager.py.
pub mod Defs
pub mod Plan
pub mod Ledger
pub mod Change
pub mod Setup
pub mod Rows
pub mod Events
pub mod Health
pub mod Audit
pub mod Identity
pub mod Credit
pub mod Solvent
pub mod Once
pub mod Repeat
pub mod Setting
pub mod Memory
pub mod Remembered
pub mod Charges
pub mod Again
pub mod Examples

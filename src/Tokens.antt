-- ===== src/Tokens.antt =====
-- The in-memory confirmation tokens of src/core/manual_order_tokens.py, strategy_tokens.py,
-- list_view_tokens.py and ticker_disambiguation.py.
-- A token is the decimal text of a number, so it is modelled by the number; a text that is no
-- number is a token that no table has. A time is a number of microseconds of `time.time()`. The
-- difference of two times stops at 0, which changes no test `now - created > ttl`.
pub mod Defs
pub mod Manual
pub mod ListView
pub mod Choice
pub mod Minting
pub mod SingleUse
pub mod Sliding
pub mod Chosen
pub mod Examples

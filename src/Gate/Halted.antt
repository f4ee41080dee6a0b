-- ===== src/Gate/Halted.antt =====
-- Setting the stop of trading, and reading it.
use supabot.Base.{Bool, arith, false, string_eq, true, ℕ, ◌-◌, ◌<◌, ◌≡◌}
use supabot.Gate.Halt.{
  Halt, Reading, failed, halt_value, is_trading_halted, no_row, row, set_trading_halt, unavailable,
}

-- What the database says after the value was written: the value, or nothing, where it is not in use
-- or does not answer.
abbrev pub IsTold : Bool → Reading → Type 0
IsTold v unavailable = Unit
IsTold v failed = Unit
IsTold v no_row = ⊥
IsTold v (row text) = text ≡ halt_value v

-- Trading is stopped, or resumed, from the moment that an administrator says so, at any later time:
-- when the flag file could be written, and the database gives what was written or does not answer.
pub set-is_trading_halted :
    (v : Bool) (reading : Reading) (made now : ℕ) (h : Halt)
    → IsTold v reading
    → (is_trading_halted reading now (set_trading_halt v true made h).0).0 ≡ v
unfolding is_trading_halted set_trading_halt
set-is_trading_halted true unavailable made now h told = ground arith
set-is_trading_halted false unavailable made now h told = ground arith
set-is_trading_halted true failed made now h told = ground arith
set-is_trading_halted false failed made now h told = ground arith
set-is_trading_halted v no_row made now h told = absurd told
set-is_trading_halted true (row text) made now h told = rw told (ground arith)
set-is_trading_halted false (row text) made now h told = rw told (ground arith)

-- For 5 seconds the value is the one that was set, whatever the database and the file say.
pub set_then_soon :
    (v synced : Bool) (reading : Reading) (made now : ℕ) (h : Halt)
    → now - made < 5_000_000
    → (is_trading_halted reading now (set_trading_halt v synced made h).0).0 ≡ v
unfolding is_trading_halted set_trading_halt
set_then_soon v synced reading made now h soon = ground arith

-- ===== src/Gate/Halt.antt =====
-- The global stop of trading in src/core/trading_gate.py. Its state is the cache of the process and
-- the flag file; what the database answers is a parameter of each call. A time is a number of
-- microseconds.
use supabot.Base.{
  Bool, Option, String, false, if◌then◌else◌, ltb, none, some, string_eq, true, ℕ, ◌-◌, ◌==◌,
}

-- What a query for the key `trading_halt` gives: the database is not in use, the query fails, there
-- is no row, or a row with a value.
pub data Reading : Type 0 where
  unavailable failed no_row : Reading
  row : String → Reading

-- `_halt_cache`, `_halt_cache_ts`, and whether the flag file exists.
pub record Halt : Type 0 where
  pub cache : Option Bool
  pub cache_ts : ℕ
  pub flag : Bool

-- 5 seconds
abbrev pub halt_cache_ttl : ℕ
halt_cache_ttl = 5_000_000

-- The value that is still fresh.
abbrev pub fresh_cache : ℕ → Halt → Option Bool
fresh_cache now h = elim h.cache [
  | none ↦ none
  | some v ↦ if ltb (now - h.cache_ts) halt_cache_ttl then some v else none
]

abbrev pub remember : Bool → ℕ → Halt → Bool × Halt
remember v now h = (v, record h { cache = some v; cache_ts = now })

-- The file, then the last known value.
abbrev pub fall_back : ℕ → Halt → Bool × Halt
fall_back now h =
    if h.flag then remember true now h else (elim h.cache [ none ↦ false | some v ↦ v ], h)

abbrev pub look_up : Reading → ℕ → Halt → Bool × Halt
look_up unavailable now h = fall_back now h
look_up failed now h = fall_back now h
look_up no_row now h = remember false now h
look_up (row v) now h = remember (v == "1") now h

unfoldable pub is_trading_halted : Reading → ℕ → Halt → Bool × Halt
is_trading_halted reading now h = elim (fresh_cache now h) [
  | some v ↦ (v, h)
  | none ↦ look_up reading now h
]

-- The value that is asked of the database.
abbrev pub halt_value : Bool → String
halt_value halted = if halted then "1" else "0"

-- `synced` says whether the flag file could be written or removed. The value goes to the database
-- when it is in use.
unfoldable pub set_trading_halt : Bool → Bool → ℕ → Halt → Halt × String
set_trading_halt halted synced now h = (
  record { cache = some halted; cache_ts = now; flag = if synced then halted else h.flag },
  halt_value halted,
)

-- ===== src/Base/Short.antt =====
-- What is missing of a need: on whole amounts, the cash is short exactly when something is missing,
-- and a deposit of what is missing meets the need.
use mathlib.Core.Path.{◌≡◌}
use mathlib.Core.Bool.{false}
use native.Mathlib.Omega.{arith}
use supabot.Base.Int.{ℤ, pos, ltb_ℤ, leb_ℤ, ◌≤ℤ◌, ◌+ℤ◌, ◌-ℤ◌, +ℤ_parts, -ℤ_parts}
use supabot.Base.Float.{fmax, int_float}

pub short_iff : (need cash : ℤ) → leb_ℤ (pos 1) (fmax (pos 0) (need -ℤ cash)) ≡ ltb_ℤ cash need
short_iff need cash = ground (arith, -ℤ_parts need cash)

pub short_lt_iff : (need cash : ℤ) → ltb_ℤ (pos 0) (fmax (pos 0) (need -ℤ cash)) ≡ ltb_ℤ cash need
short_lt_iff need cash = ground (arith, -ℤ_parts need cash)

pub enough : (need cash : ℤ) → ltb_ℤ cash need ≡ false → need ≤ℤ cash
enough need cash h = ground arith

pub deposit_meets : (need cash : ℤ) → need ≤ℤ cash +ℤ fmax (pos 0) (need -ℤ cash)
deposit_meets need cash =
    ground (arith, -ℤ_parts need cash, +ℤ_parts cash (fmax (pos 0) (need -ℤ cash)))

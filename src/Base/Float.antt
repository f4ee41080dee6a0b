-- ===== src/Base/Float.antt =====
-- Floating-point numbers as the program uses them: an interface of constants, operations and tests.
-- No law of arithmetic is assumed; a theorem that needs one names it as a hypothesis.
use Prim.Native.Nat.{ℕ, ◌+◌, ◌-◌, ◌/◌, ◌%◌}
use mathlib.Core.Bool.{Bool, ◌&&◌}
use supabot.Base.Int.{ℤ, pos, ◌+ℤ◌, ◌-ℤ◌, ◌*ℤ◌, ltb_ℤ, leb_ℤ}
use supabot.Base.Tests.{if◌then◌else◌}

pub record Float (R : Type 0) : Type 0 where
  pub of_ℕ : ℕ → R
  pub add : R → R → R
  pub sub : R → R → R
  pub mul : R → R → R
  pub div : R → R → R
  -- `a < b` and `a <= b`, both false on a NaN
  pub lt : R → R → Bool
  pub le : R → R → Bool
  -- `int(a)`, as a float again
  pub trunc : R → R
  -- `math.floor(a)` and `round(a)`, as floats again
  pub floor : R → R
  pub round : R → R
  -- `math.ceil(a / b)`, as a float again
  pub ceil_div : R → R → R
  -- `a // b`
  pub floor_div : R → R → R
  -- `round(a, n)`
  pub round_to : ℕ → R → R
  -- `a % b`
  pub modulo : R → R → R

-- Python's `max(a, b)` keeps the first argument unless the second is greater.
abbrev pub fmax : {R : Type 0} ⦃f : Float R⦄ → R → R → R
fmax ⦃f⦄ a b = if f.lt a b then b else a

-- Python's `min(a, b)` keeps the first argument unless the second is smaller.
abbrev pub fmin : {R : Type 0} ⦃f : Float R⦄ → R → R → R
fmin ⦃f⦄ a b = if f.lt b a then b else a

-- `abs(a)`
abbrev pub fabs : {R : Type 0} ⦃f : Float R⦄ → R → R
fabs ⦃f⦄ a = if f.lt a (f.of_ℕ 0) then f.sub (f.of_ℕ 0) a else a

-- A float that a test takes for false: zero. A NaN is true.
abbrev pub is_zero : {R : Type 0} ⦃f : Float R⦄ → R → Bool
is_zero ⦃f⦄ a = f.le a (f.of_ℕ 0) && f.le (f.of_ℕ 0) a

-- The literal a / b.
abbrev pub ratio : {R : Type 0} ⦃f : Float R⦄ → ℕ → ℕ → R
ratio ⦃f⦄ a b = f.div (f.of_ℕ a) (f.of_ℕ b)

-- Whole numbers meet the interface; a quotient is rounded towards zero for a non-negative pair.
abbrev pub quotient : ℤ → ℤ → ℤ
quotient (pos a) (pos b) = pos (a / b)
quotient a b = a

-- The remainder has the sign of the divisor; only a positive divisor is met here.
abbrev pub remainder : ℤ → ℤ → ℤ
remainder (pos a) (pos b) = pos (a % b)
remainder a b = a

abbrev pub ceil_quotient : ℤ → ℤ → ℤ
ceil_quotient (pos a) (pos b) = pos ((a + b - 1) / b)
ceil_quotient a b = a

instance abbrev pub int_float : Float ℤ
int_float = record {
  of_ℕ = pos;
  add = ◌+ℤ◌;
  sub = ◌-ℤ◌;
  mul = ◌*ℤ◌;
  div = quotient;
  lt = ltb_ℤ;
  le = leb_ℤ;
  trunc = λ a. a;
  floor = λ a. a;
  round = λ a. a;
  ceil_div = ceil_quotient;
  floor_div = quotient;
  round_to = λ n a. a;
  modulo = remainder;
}

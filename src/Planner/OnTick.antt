-- ===== src/Planner/OnTick.antt =====
-- Prices on their ticks, in whole won.
use supabot.Base.{
  Bool-cases, String, arith, false, inl, inr, string_eq, subst, sym, true, ℕ, ◌≡◌, ◌≤◌, ◌⊎◌,
}
use supabot.Base.Float.{int_float, remainder}
use supabot.Base.Int.{ -ℤ_parts, eq_of_parts, leb_ℤ, ltb_ℤ, pos, ℤ, ◌+ℤ◌, ◌-ℤ◌, ◌≤ℤ◌}
use supabot.Planner.Ticks.{adjust_price_to_tick, coin_tick, get_tick_size, is_krx, krx_tick}

krx_on_tick :
    (p : ℕ)
    → let t = krx_tick (pos p) in
      let a = pos p -ℤ remainder (pos p) t in
      (a ≤ℤ pos p) × (ltb_ℤ (pos p) (a +ℤ t) ≡ true) × (remainder a t ≡ pos 0) × (krx_tick a ≡ t)
unfolding ◌-ℤ◌ ◌+ℤ◌
krx_on_tick p = ground arith

coin_on_tick :
    (p : ℕ)
    → 100 ≤ p
    → let t = coin_tick (pos p) in
      let a = pos p -ℤ remainder (pos p) t in
      (a ≤ℤ pos p) × (ltb_ℤ (pos p) (a +ℤ t) ≡ true) × (remainder a t ≡ pos 0) × (coin_tick a ≡ t)
unfolding ◌-ℤ◌ ◌+ℤ◌
coin_on_tick p h = ground arith

krx_whole : (p : ℤ) → leb_ℤ (pos 1) (krx_tick p) ≡ true
krx_whole p = ground arith

coin_whole : (p : ℕ) → 100 ≤ p → leb_ℤ (pos 1) (coin_tick (pos p)) ≡ true
coin_whole p h = ground arith

-- A price that is adjusted to `a`, with the tick `t` of the price before.
abbrev pub IsOnTick : String → ℤ → ℤ → Type 0
IsOnTick ex price a =
    let t = get_tick_size price ex in
    (a ≤ℤ price)
    × (ltb_ℤ price (a +ℤ t) ≡ true)
    × (remainder a t ≡ pos 0)
    × (get_tick_size a ex ≡ t)

adjust_krx :
    (p : ℕ) (ex : String) → is_krx ex ≡ true → IsOnTick ex (pos p) (adjust_price_to_tick (pos p) ex)
unfolding adjust_price_to_tick
adjust_krx p ex krx = rw (krx, krx_whole (pos p)) (krx_on_tick p)

adjust_coin :
    (p : ℕ) (ex : String)
    → is_krx ex ≡ false
    → 100 ≤ p
    → IsOnTick ex (pos p) (adjust_price_to_tick (pos p) ex)
unfolding adjust_price_to_tick
adjust_coin p ex coin h = rw (coin, coin_whole p h) (coin_on_tick p h)

minus_nothing : (a : ℤ) → a -ℤ pos 0 ≡ a
minus_nothing a = eq_of_parts (a -ℤ pos 0) a (omega (arith, -ℤ_parts a (pos 0)))

-- A price that is a multiple of its own tick is left as it is.
on_tick_stays :
    (a : ℤ) (ex : String) → remainder a (get_tick_size a ex) ≡ pos 0 → adjust_price_to_tick a ex ≡ a
unfolding adjust_price_to_tick
on_tick_stays a ex h = rw h (elim (Bool-cases (leb_ℤ (pos 1) (get_tick_size a ex))) [
  | inl whole ↦ rw whole (minus_nothing a)
  | inr less ↦ rw less (minus_nothing a)
])

-- A price in whole won, of a stock or of a coin from 100 won on: adjusting it gives the greatest
-- multiple of its tick that is not above it. The tick of the adjusted price is the same, so it stands
-- on its own tick too, and adjusting it again changes nothing.
pub adjust_price_to_tick-IsOnTick :
    (p : ℕ) (ex : String)
    → (is_krx ex ≡ true) ⊎ (100 ≤ p)
    → IsOnTick ex (pos p) (adjust_price_to_tick (pos p) ex)
      × (adjust_price_to_tick (adjust_price_to_tick (pos p) ex) ex
          ≡ adjust_price_to_tick (pos p) ex)
adjust_price_to_tick-IsOnTick p ex kind =
    let a = adjust_price_to_tick (pos p) ex in
    let on_tick : IsOnTick ex (pos p) a = elim (Bool-cases (is_krx ex)) [
      | inl krx ↦ adjust_krx p ex krx
      | inr coin ↦ elim kind [ inl krx ↦ cc | inr enough ↦ adjust_coin p ex coin enough ]
    ] in
    (on_tick, on_tick_stays a ex (subst (λ t. remainder a t ≡ pos 0) (sym on_tick.3) on_tick.2))

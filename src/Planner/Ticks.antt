-- ===== src/Planner/Ticks.antt =====
-- The ticks of the planner: `get_tick_size`, `adjust_price_to_tick` and `round_volume`.
-- `exchange.lower() in ("kis", "toss")`
use supabot.Base.{Bool, String, if◌then◌else◌, string_eq, ℕ, ◌||◌}
use supabot.Base.Float.{Float, ratio}
use supabot.Base.Text.{codes, lower, same_codes}

abbrev pub is_krx : String → Bool
is_krx ex = same_codes (lower ex) (codes "kis") || same_codes (lower ex) (codes "toss")

module _ {R : Type 0} ⦃f : Float R⦄ where
  -- `price >= n`
  abbrev pub at_least : ℕ → R → Bool
  at_least n price = f.le (f.of_ℕ n) price

  abbrev pub krx_tick : R → R
  krx_tick price =
      if at_least 500_000 price
      then f.of_ℕ 1_000
      else (if at_least 200_000 price
          then f.of_ℕ 500
          else (if at_least 50_000 price
              then f.of_ℕ 100
              else (if at_least 20_000 price
                  then f.of_ℕ 50
                  else (if at_least 5_000 price
                      then f.of_ℕ 10
                      else (if at_least 2_000 price then f.of_ℕ 5 else f.of_ℕ 1)))))

  -- Below a price of 100.
  abbrev pub fraction_tick : R → R
  fraction_tick price =
      if at_least 10 price
      then ratio 1 10
      else (if at_least 1 price
          then ratio 1 100
          else (if f.le (ratio 1 10) price then ratio 1 1_000 else ratio 1 10_000))

  abbrev pub coin_tick : R → R
  coin_tick price =
      if at_least 2_000_000 price
      then f.of_ℕ 1_000
      else (if at_least 1_000_000 price
          then f.of_ℕ 500
          else (if at_least 500_000 price
              then f.of_ℕ 100
              else (if at_least 100_000 price
                  then f.of_ℕ 50
                  else (if at_least 10_000 price
                      then f.of_ℕ 10
                      else (if at_least 1_000 price
                          then f.of_ℕ 5
                          else (if at_least 100 price then f.of_ℕ 1 else fraction_tick price))))))

  unfoldable pub get_tick_size : R → String → R
  get_tick_size price ex = if is_krx ex then krx_tick price else coin_tick price

  unfoldable pub adjust_price_to_tick : R → String → R
  unfolding get_tick_size
  adjust_price_to_tick price ex =
      let tick = get_tick_size price ex in
      let adjusted = f.sub price (f.modulo price tick) in
      if f.le (f.of_ℕ 1) tick then f.trunc adjusted else f.round_to 4 adjusted

  unfoldable pub round_volume : R → String → R
  round_volume raw ex = if is_krx ex then f.trunc raw else f.round_to 4 raw

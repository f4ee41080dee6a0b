-- ===== src/Planner/Common.antt =====
-- The ticks of the adapters, in `BaseExchange` of src/core/exchanges/base.py (Upbit and Bithumb), and
-- in `CommonMixin` of src/core/exchanges/common.py, as toss.py and kis.py use them; and the state of an
-- order as an exchange reports it.
use supabot.Base.{Bool, Option, String, if◌then◌else◌, none, some, string_eq, ◌==◌, ◌||◌}
use supabot.Base.Float.{Float, ratio}
use supabot.Base.Text.{codes, is_alpha, lower, same_codes}
use supabot.Planner.Ticks.{at_least}

pub data OrderState : Type 0 where
  filled cancelled partly_filled waiting : OrderState

-- `is_us_stock` of `TossExchange`
abbrev pub is_us_ticker : String → Bool
is_us_ticker ticker = is_alpha (codes ticker)

module _ {R : Type 0} ⦃f : Float R⦄ where
  unfoldable pub get_tick_size_of_coin : R → R
  get_tick_size_of_coin price =
      if at_least 2_000_000 price
      then f.of_ℕ 1_000
      else (if at_least 1_000_000 price
          then f.of_ℕ 500
          else (if at_least 500_000 price
              then f.of_ℕ 100
              else (if at_least 100_000 price
                  then f.of_ℕ 50
                  else (if at_least 10_000 price
                      then f.of_ℕ 10
                      else (if at_least 1_000 price
                          then f.of_ℕ 5
                          else (if at_least 100 price
                              then f.of_ℕ 1
                              else (if at_least 10 price
                                  then ratio 1 10
                                  else (if at_least 1 price
                                      then ratio 1 100
                                      else (if f.le (ratio 1 10) price
                                          then ratio 1 1_000
                                          else ratio 1 10_000)))))))))

  unfoldable pub get_krx_tick_size : R → R
  get_krx_tick_size price =
      if at_least 500_000 price
      then f.of_ℕ 1_000
      else (if at_least 200_000 price
          then f.of_ℕ 500
          else (if at_least 50_000 price
              then f.of_ℕ 100
              else (if at_least 20_000 price
                  then f.of_ℕ 50
                  else (if at_least 5_000 price
                      then f.of_ℕ 10
                      else (if at_least 2_000 price then f.of_ℕ 5 else f.of_ℕ 1)))))

  unfoldable pub adjust_coin_price_to_tick : R → R
  unfolding get_tick_size_of_coin
  adjust_coin_price_to_tick price =
      let tick = get_tick_size_of_coin price in
      let adjusted = f.sub price (f.modulo price tick) in
      if f.le (f.of_ℕ 1) tick then f.trunc adjusted else f.round_to 4 adjusted

  unfoldable pub adjust_krx_price_to_tick : R → R
  unfolding get_krx_tick_size
  adjust_krx_price_to_tick price = f.trunc (f.sub price (f.modulo price (get_krx_tick_size price)))

  unfoldable pub adjust_us_price_to_tick : R → R
  adjust_us_price_to_tick price = f.round_to 2 (f.sub price (f.modulo price (ratio 1 100)))

  -- `adjust_price_to_tick` of `TossExchange`, where a ticker of letters is a US stock.
  unfoldable pub adjust_toss_price_to_tick : String → R → R
  unfolding adjust_us_price_to_tick adjust_krx_price_to_tick
  adjust_toss_price_to_tick ticker price =
      if is_us_ticker ticker then adjust_us_price_to_tick price else adjust_krx_price_to_tick price

  -- The exchange of that name adjusts the price; there is none of another name.
  unfoldable pub adjust_by_exchange : String → String → R → Option R
  unfolding adjust_toss_price_to_tick adjust_krx_price_to_tick adjust_coin_price_to_tick
  adjust_by_exchange ex ticker price =
      if ex == "upbit" || ex == "bithumb"
      then some (adjust_coin_price_to_tick price)
      else (if ex == "kis"
          then some (adjust_krx_price_to_tick price)
          else (if ex == "toss" then some (adjust_toss_price_to_tick ticker price) else none))

  -- `_normalize_order_state`; an absent state is an empty text.
  unfoldable pub normalize_order_state : String → R → OrderState
  normalize_order_state state executed =
      if same_codes (lower state) (codes "done") || same_codes (lower state) (codes "completed")
      then filled
      else (if same_codes (lower state) (codes "cancel")
            || (same_codes (lower state) (codes "canceled")
                || same_codes (lower state) (codes "cancelled"))
          then cancelled
          else (if f.lt (f.of_ℕ 0) executed then partly_filled else waiting))

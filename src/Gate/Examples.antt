-- ===== src/Gate/Examples.antt =====
-- The theorems on the gate at concrete orders.
use supabot.Base.{
  All, List, String, [], any, false, none, refl, some, string_eq, true, ◌==◌, ◌∷◌, ◌≡◌, ◌⊎◌,
}
use supabot.Base.Int.{pos, ℤ}
use supabot.Base.Float.{int_float}
use supabot.Base.Text.{codes, same_codes}
use supabot.Orders.Defs.{Order, bid}
use supabot.Orders.Examples.{bought}
use supabot.Orders.Manager.{new_order}
use supabot.Gate.Halt.{Halt, is_trading_halted, row, set_trading_halt}
use supabot.Gate.Defs.{
  Prefs, Request, assert_single_strategy_per_ticker, get_strategy_family, is_top_universe_ticker,
}
use supabot.Gate.Halted.{set-is_trading_halted}
use supabot.Gate.Rules.{LeavesRoom, admitted_alone}

abbrev going_on : Halt
going_on = record { cache = none; cache_ts = 0; flag = false }

set-is_trading_halted_example :
    (is_trading_halted (row "1") 900_000_000 (set_trading_halt true true 10 going_on).0).0 ≡ true
set-is_trading_halted_example = set-is_trading_halted true (row "1") 10 900_000_000 going_on refl

abbrev open_orders : List (Order ℤ)
open_orders = new_order bought (pos 0) ∷ []

-- A grid beside a grid.
admitted_alone_example :
    let family = get_strategy_family "sgrid" in
    All (LeavesRoom "035720" family) open_orders
    × ((same_codes family (codes "kospi_top") ≡ true)
        ⊎ (is_top_universe_ticker "035720" none ≡ false))
    × ((same_codes family (codes "dca") ≡ true)
        ⊎ (any {A = String} (λ t. t == "035720") [] ≡ false))
admitted_alone_example =
    admitted_alone open_orders "035720" "sgrid" [] none (λ e. cc e) refl
      (unfold assert_single_strategy_per_ticker get_strategy_family is_top_universe_ticker
          new_order in
        refl)

abbrev prefs : Prefs ℤ
prefs = record {
  daily_max_order_count = some (pos 3);
  daily_max_loss_krw = some (pos 100_000);
  max_ticker_exposure_krw = some (pos 1_000_000);
  max_open_exposure_krw = some (pos 2_000_000);
}

abbrev request : Request ℤ
request = record {
  new_order_krw = pos 50_000;
  is_usd = false;
  ticker = some "035720";
  side = bid;
  strategy = "grid";
  today_order_count = 1;
  today_realized_loss_krw = pos 0;
}

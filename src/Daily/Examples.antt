-- ===== src/Daily/Examples.antt =====
-- A day of the ranking strategy in whole amounts, and the theorems at it.
use supabot.Base.{
  List, String, [], arith, false, inl, inr, map, none, refl, some, string_eq, true, ℕ, ◌∷◌, ◌≡◌,
}
use supabot.Base.Float.{fmax, int_float}
use supabot.Base.Int.{pos, ℤ, ◌*ℤ◌, ◌+ℤ◌, ◌-ℤ◌, ◌≤ℤ◌}
use supabot.Base.Dict.{lookup}
use supabot.Budget.Defs.{TradeRow, value_or}
use supabot.Daily.Defs.{Holding, Item, Progress, Settings, State, settings_of}
use supabot.Daily.Sell.{Shop}
use supabot.Daily.Step.{DayResult, step_single_day}
use supabot.Daily.Paid.{proceeds, step_single_day_paid, worth}
use supabot.Daily.SoldOut.{sell_days}
use supabot.Daily.SellOff.{IsSoldOff, sell_days-IsSoldOff}
use supabot.Daily.Holdings.{get_template_holdings}
use supabot.Daily.Net.{AllCoveredBy, get_template_holdings-net, net, qty_in}

abbrev old_shares : Holding ℤ
old_shares = record { qty = pos 7; total_cost = pos 7_000; avg_price = pos 1_000 }

abbrev leaving : Progress ℤ
leaving = record {
  total_days = 3;
  remaining_days = 3;
  initial_qty = pos 7;
  first_exit_date = "2026-01-02";
  last_sell_date = "2026-01-02";
}

abbrev state : State ℤ
state = record {
  rank_start = some 1;
  rank_end = some 2;
  top_n = none;
  upper_exit_mode = none;
  exit_rank_buffer = some 0;
  exit_confirm_days = some 1;
  sell_split_days = some 3;
  cycle_alloc_mode = none;
  cycle_target_krw = none;
  sell_proceeds_mode = some "recycle_to_budget";
  last_group_no = some 4;
  cycle_no = some 1;
  carryover_budget = some (pos 5_000);
  monthly_spent = some (pos 100);
  current_cycle_bought = [];
  skipped_untradable = [];
  exit_candidate_streaks = [];
  exit_progress = ("C", leaving) ∷ [];
  holdings = ("C", old_shares) ∷ [];
  next_target_ticker = none;
  last_run_date = none;
}

abbrev targets : List (Item ℤ)
targets =
    record { code = "A"; rank = 1; price = pos 2_000 }
    ∷ record { code = "B"; rank = 2; price = pos 3_000 }
    ∷ []

abbrev result : DayResult ℤ
result = step_single_day state "2026-01-05" targets none (("C", pos 1_100) ∷ []) true

-- Three of the seven shares are sold; one round and the first target of the next are bought.
a_day :
    (map (λ o. o.volume) result.sells ≡ pos 3 ∷ [])
    × (map (λ o. o.code) result.buys ≡ "A" ∷ "B" ∷ "A" ∷ [])
    × (result.state.carryover_budget ≡ some (pos 1_300))
unfolding step_single_day ◌+ℤ◌ ◌-ℤ◌ ◌*ℤ◌
a_day = (refl, refl, refl)

has_enough : pos 0 ≤ℤ pos 5_000 +ℤ proceeds true result.sells
unfolding step_single_day ◌+ℤ◌ ◌-ℤ◌ ◌*ℤ◌
has_enough = omega arith

step_single_day_paid_example :
    (value_or result.state.carryover_budget (pos 0) +ℤ worth result.buys
      ≡ pos 5_000 +ℤ proceeds true result.sells)
    × (value_or result.state.monthly_spent (pos 0) ≡ pos 100 +ℤ worth result.buys)
    × (pos 0 ≤ℤ value_or result.state.carryover_budget (pos 0))
step_single_day_paid_example =
    step_single_day_paid state "2026-01-05" targets none (("C", pos 1_100) ∷ []) true has_enough

abbrev shop : Shop ℤ
shop = record {
  streaks = [];
  progress = ("C", leaving) ∷ [];
  holdings = ("C", old_shares) ∷ [];
  carryover = pos 0;
  sells = [];
}

abbrev settings : Settings ℤ
settings = settings_of state "2026-01-05"

sell_days-IsSoldOff_example :
    IsSoldOff settings 1 false "C" 7 shop
      (sell_days settings 1 false "C" (pos 1_000 ∷ pos 900 ∷ pos 950 ∷ []) shop)
sell_days-IsSoldOff_example =
    sell_days-IsSoldOff settings 1 false "C" (pos 1_000 ∷ pos 900 ∷ pos 950 ∷ []) 7 3 shop
      (old_shares, refl, refl) (leaving, refl, refl) refl (omega arith)

abbrev a_trade : String → ℕ → TradeRow ℤ
a_trade side volume = record {
  uuid = "u";
  ticker = "A";
  side = side;
  price = pos 1_000;
  volume = pos volume;
  fee_amount = pos 1;
  group_no = none;
}

abbrev trades : List (TradeRow ℤ)
trades = a_trade "bid" 5 ∷ a_trade "ask" 2 ∷ []

trades_covered : AllCoveredBy "A" (pos 0) trades
unfolding ◌+ℤ◌
trades_covered = (inr (inl refl), (inr (inr (omega arith, refl)), tt))

get_template_holdings-net_example :
    qty_in (lookup "A" (get_template_holdings (some trades)))
    ≡ fmax (pos 0) (net "A" (pos 0) trades)
get_template_holdings-net_example = get_template_holdings-net "A" trades trades_covered

three_left : qty_in (lookup "A" (get_template_holdings (some trades))) ≡ pos 3
unfolding get_template_holdings ◌+ℤ◌ ◌-ℤ◌ ◌*ℤ◌
three_left = refl

-- ===== src/Daily/Step.antt =====
-- `step_single_day`: the sales, the purchases and the state after a day.
use supabot.Base.{Bool, List, Option, String, [], map, none, some, string_eq, ◌++◌}
use supabot.Base.Float.{Float}
use supabot.Base.Dict.{Dict}
use supabot.Budget.Defs.{value_or}
use supabot.Daily.Defs.{DayOrder, Item, Ranked, State, fill_prices, ranked_of, ranks, settings_of}
use supabot.Daily.Sell.{Shop, sell_exits}
use supabot.Daily.Buy.{Cart, buy_round, buy_rounds}

pub record DayResult (R : Type 0) : Type 0 where
  pub state : State R
  pub buys : List (DayOrder R)
  pub sells : List (DayOrder R)

module _ {R : Type 0} ⦃f : Float R⦄ where
  abbrev pub shop_of : State R → Shop R
  shop_of s = record {
    streaks = s.exit_candidate_streaks;
    progress = s.exit_progress;
    holdings = s.holdings;
    carryover = value_or s.carryover_budget (f.of_ℕ 0);
    sells = [];
  }

  abbrev pub cart_of : State R → Shop R → Cart R
  cart_of s d = record {
    carryover = d.carryover;
    spent = value_or s.monthly_spent (f.of_ℕ 0);
    bought = s.current_cycle_bought;
    holdings = d.holdings;
    buys = [];
  }

  abbrev pub master_of : Option (List (Ranked R)) → List (Item R) → List (Ranked R)
  master_of none targets = map ranked_of targets
  master_of (some items) targets = items

  unfoldable pub step_single_day :
      State R
      → String
      → List (Item R)
      → Option (List (Ranked R))
      → Dict String R
      → Bool
      → DayResult R
  unfolding sell_exits buy_rounds buy_round
  step_single_day s date targets master_items price_map is_dry_run =
      let settings = settings_of s date in
      let cycle = value_or s.cycle_no 1 in
      let master = master_of master_items targets in
      let prices = fill_prices (master ++ map ranked_of targets) price_map in
      let d =
        sell_exits settings cycle is_dry_run (ranks master []) prices (map (λ i. i.code) targets)
          s.holdings (shop_of s) in
      let r = buy_rounds 50 settings prices targets cycle s.skipped_untradable (cart_of s d) in
      record {
        state = record s {
          last_group_no = some settings.group_no;
          cycle_no = some r.cycle_no;
          carryover_budget = some r.cart.carryover;
          monthly_spent = some r.cart.spent;
          current_cycle_bought = r.cart.bought;
          skipped_untradable = r.skipped;
          exit_candidate_streaks = d.streaks;
          exit_progress = d.progress;
          holdings = r.cart.holdings;
          next_target_ticker = r.waiting;
          last_run_date = some date;
        };
        buys = r.cart.buys;
        sells = d.sells;
      }

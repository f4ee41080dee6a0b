-- ===== src/Planner/Examples.antt =====
-- Tests of the planner in whole won, and the theorems at concrete prices.
use supabot.Base.{String, [], inl, map, none, refl, string_eq, true, ◌∷◌, ◌≡◌}
use supabot.Base.Float.{int_float}
use supabot.Base.Int.{pos, ℤ, ◌*ℤ◌, ◌+ℤ◌, ◌-ℤ◌}
use supabot.Planner.Ticks.{adjust_price_to_tick}
use supabot.Planner.Plan.{Job, plan_grid_orders}
use supabot.Planner.OnTick.{IsOnTick, adjust_price_to_tick-IsOnTick}

adjusted : adjust_price_to_tick (pos 73_451) "kis" ≡ pos 73_400
unfolding adjust_price_to_tick ◌-ℤ◌
adjusted = refl

adjust_price_to_tick-IsOnTick_example :
    IsOnTick "kis" (pos 73_451) (adjust_price_to_tick (pos 73_451) "kis")
    × (adjust_price_to_tick (adjust_price_to_tick (pos 73_451) "kis") "kis"
        ≡ adjust_price_to_tick (pos 73_451) "kis")
adjust_price_to_tick-IsOnTick_example = adjust_price_to_tick-IsOnTick 73_451 "kis" (inl refl)

abbrev toss : String
toss = "toss"

abbrev job : Job ℤ
job = record {
  user_id = "ann";
  exchange = "kis";
  ticker = "005930";
  start = pos 70_000;
  end_value = pos 76_000;
  count = 3;
  amount = pos 11;
  group_no = 2;
  template_id = none;
}

three_sales :
    map (λ o. o.price) (plan_grid_orders job true) ≡ pos 70_000 ∷ pos 73_000 ∷ pos 76_000 ∷ []
unfolding plan_grid_orders ◌-ℤ◌ ◌+ℤ◌ ◌*ℤ◌
three_sales = refl

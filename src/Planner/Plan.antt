-- ===== src/Planner/Plan.antt =====
-- `plan_grid_orders` and `plan_rsitrade_orders`: the reserved orders of a strategy, without their
-- random numbers.
use supabot.Base.{
  Bool, List, Option, String, [], false, if◌then◌else◌, ltb, nat_beq, none, some, string_eq, suc,
  zero, ℕ, ◌+◌, ◌-◌, ◌||◌, ◌∷◌,
}
use supabot.Base.Float.{Float, fmax, ratio}
use supabot.Planner.Ticks.{adjust_price_to_tick, round_volume}

pub record Planned (R : Type 0) : Type 0 where
  pub user_id : String
  pub exchange : String
  pub ticker : String
  pub price : R
  pub volume : R
  pub side : String
  pub strategy : String
  pub target_rsi : Option R
  pub group_no : ℕ
  pub template_id : Option ℕ

-- The arguments that both functions have: the two ends are prices or values of the RSI.
pub record Job (R : Type 0) : Type 0 where
  pub user_id : String
  pub exchange : String
  pub ticker : String
  pub start : R
  pub end_value : R
  pub count : ℕ
  pub amount : R
  pub group_no : ℕ
  pub template_id : Option ℕ

module _ {R : Type 0} ⦃f : Float R⦄ where
  -- From one end to the other, in steps of the same size.
  abbrev pub step_of : Job R → R
  step_of j =
      if ltb 1 j.count then f.div (f.sub j.end_value j.start) (f.of_ℕ (j.count - 1)) else f.of_ℕ 0

  abbrev pub value_at : Job R → ℕ → R
  value_at j i = f.add j.start (f.mul (step_of j) (f.of_ℕ i))

  -- The share of a leg, less a buffer for the fee, at the price.
  abbrev pub bid_share : Job R → R → R
  bid_share j price =
      if f.lt (f.of_ℕ 0) price
      then f.div (f.mul (f.div j.amount (f.of_ℕ j.count)) (ratio 999 1000)) price
      else f.of_ℕ 0

  abbrev pub grid_volume : Job R → Bool → R → R
  grid_volume j is_sell price =
      if is_sell then f.div j.amount (f.of_ℕ j.count) else bid_share j price

  abbrev pub planned_of : Job R → R → R → Bool → String → Option R → Planned R
  planned_of j price volume is_sell strategy rsi = record {
    user_id = j.user_id;
    exchange = j.exchange;
    ticker = j.ticker;
    price = price;
    volume = volume;
    side = if is_sell then "ask" else "bid";
    strategy = strategy;
    target_rsi = rsi;
    group_no = j.group_no;
    template_id = j.template_id;
  }

  abbrev pub grid_order : Job R → Bool → ℕ → Planned R
  grid_order j is_sell i =
      let price = adjust_price_to_tick (value_at j i) j.exchange in
      planned_of j price (round_volume (grid_volume j is_sell price) j.exchange) is_sell
        (if is_sell then "sgrid" else "grid") none

  abbrev pub rsi_price : Job R → R → R → R → R
  rsi_price j current_price current_rsi target =
      f.mul current_price (fmax (ratio 1 100) (f.div target current_rsi))

  abbrev pub rsi_order : Job R → R → R → ℕ → Planned R
  rsi_order j current_price current_rsi i =
      let target = value_at j i in
      let price = adjust_price_to_tick (rsi_price j current_price current_rsi target) j.exchange in
      planned_of j price (round_volume (bid_share j price) j.exchange) false "rsitrade"
        (some target)

  -- The legs from `i` on, `n` of them; a leg without volume is left out.
  abbrev pub legs : (ℕ → Planned R) → ℕ → ℕ → List (Planned R)
  legs order i zero = []
  legs order i (suc n) =
      let rest = legs order (i + 1) n in
      if f.le (order i).volume (f.of_ℕ 0) then rest else order i ∷ rest

  unfoldable pub plan_grid_orders : Job R → Bool → List (Planned R)
  unfolding adjust_price_to_tick round_volume
  plan_grid_orders j is_sell =
      if nat_beq j.count 0 || f.le j.amount (f.of_ℕ 0)
      then []
      else legs (grid_order j is_sell) 0 j.count

  unfoldable pub plan_rsitrade_orders : Job R → R → R → List (Planned R)
  unfolding adjust_price_to_tick round_volume
  plan_rsitrade_orders j current_price current_rsi =
      if (nat_beq j.count 0 || f.le j.amount (f.of_ℕ 0))
        || (f.le current_rsi (f.of_ℕ 0) || f.le current_price (f.of_ℕ 0))
      then []
      else legs (rsi_order j current_price current_rsi) 0 j.count

-- ===== src/Execution/Grid.antt =====
-- `execute_grid_orders` of src/core/order_execution.py: the orders of a grid. The message with the
-- result is one note; the sync that is triggered afterwards is a run of its own.
use supabot.Base.{Bool, String, if◌then◌else◌, ltb, nat_eq, none, not, string_eq, ℕ, ◌&&◌, ◌-◌}
use supabot.Base.Float.{Float, is_zero, ratio}
use supabot.Orders.Defs.{ask, bid}
use supabot.Sync.Defs.{Adapter, M, Market, batch_placed, gets, notify, pure, ◌>>=◌, ◌>>◌}
use supabot.Execution.Batch.{Batch, Leg, execute_order_batch, place, skip}

pub record Grid (R : Type 0) : Type 0 where
  pub start_price : R
  pub end_price : R
  pub count : ℕ
  pub budget_or_volume : R
  pub is_sell : Bool

module _ {R : Type 0} ⦃f : Float R⦄ where
  abbrev pub price_step : Grid R → R
  price_step g =
      if ltb 1 g.count
      then f.div (f.sub g.end_price g.start_price) (f.of_ℕ (g.count - 1))
      else f.of_ℕ 0

  abbrev pub raw_volume : Grid R → R → R
  raw_volume g target =
      let share = f.div g.budget_or_volume (f.of_ℕ g.count) in
      if g.is_sell
      then share
      else (if is_zero target then f.of_ℕ 0 else f.div (f.mul share (ratio 999 1000)) target)

module _ {R W : Type 0} ⦃f : Float R⦄ where
  abbrev pub target_price : Market R W → String → Grid R → ℕ → R
  target_price ex ticker g i =
      ex.adjust_price_to_tick (f.add g.start_price (f.mul (price_step g) (f.of_ℕ i))) ticker

  unfoldable pub grid_leg : Market R W → String → Grid R → ℕ → Leg R
  grid_leg ex ticker g i =
      let target = target_price ex ticker g i in
      let volume = ex.round_volume (raw_volume g target) in
      if ex.requires_integer_volume && f.le volume (f.of_ℕ 0)
      then skip
      else place (record {
        price = target;
        volume = volume;
        side = if g.is_sell then ask else bid;
        strategy = if g.is_sell then "sgrid" else "grid";
        target_rsi = none;
        linked_to = none;
      })

  -- Outside the session the batch is reserved.
  abbrev pub is_reserved_now : Market R W → String → W → Bool
  is_reserved_now ex ticker w = ex.supports_reserved_orders && not (ex.is_market_open ticker w)

  unfoldable pub execute_grid_orders : Adapter R W → Batch → Grid R → M R W (ℕ × ℕ)
  unfolding execute_order_batch grid_leg
  execute_grid_orders ad c g = do
    b ← gets (λ b. b)
    let ex = ad.get_exchange c.exchange
    let here = record c { is_reserved = is_reserved_now ex c.ticker b.world }
    counts ← execute_order_batch ad here (λ i. pure (grid_leg ex c.ticker g i)) g.count
    notify c.user_id batch_placed
    pure counts

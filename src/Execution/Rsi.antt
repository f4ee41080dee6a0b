-- ===== src/Execution/Rsi.antt =====
-- `execute_rsitrade_orders` and `execute_sgridrsi_orders` of src/core/order_execution.py: the orders at
-- the prices of a range of RSI values. The ranges are given by their two ends, the budgets of the
-- legs by their index, and what the signal engine finds for all legs at once is an argument: `none`
-- if it has no such method.
use supabot.Base.{
  List, Option, String, get_elem?, if◌then◌else◌, leb, nat_eq, none, some, string_eq, ℕ, ◌&&◌, ◌-◌,
}
use supabot.Base.Float.{Float, is_zero}
use supabot.Orders.Defs.{Linked, Side, ask, bid, level}
use supabot.Orders.Manager.{found}
use supabot.Sync.Defs.{
  Adapter, Answer, M, Market, batch_placed, call, gets, notify, pure, ◌>>=◌, ◌>>◌,
}
use supabot.Execution.Batch.{Batch, Leg, execute_order_batch, place, silent, skip}
use supabot.Execution.Grid.{is_reserved_now}

pub record RsiRange (R : Type 0) : Type 0 where
  pub first : R
  pub last : R

module _ {R : Type 0} ⦃f : Float R⦄ where
  -- `interpolate_range`
  abbrev pub interpolate_range : RsiRange R → ℕ → ℕ → R
  interpolate_range r i count =
      if leb count 1
      then r.first
      else f.add r.first (f.mul (f.div (f.sub r.last r.first) (f.of_ℕ (count - 1))) (f.of_ℕ i))

  abbrev pub known_price : Option (List (Option R)) → ℕ → Option R
  known_price none i = none
  known_price (some prices) i = elim (get_elem? prices i) [ none ↦ none | some p ↦ p ]

  -- The target of the sale that a purchase is linked with.
  abbrev pub sell_target : Option (RsiRange R) → ℕ → ℕ → Option (Linked R)
  sell_target none i count = none
  sell_target (some r) i count = some (level (interpolate_range r i count))

module _ {R W : Type 0} ⦃f : Float R⦄ where
  -- A price of 0 is none.
  abbrev pub priced_leg : Market R W → R → Side → String → R → Option (Linked R) → Option R → Leg R
  priced_leg ex budget side strategy target linked none = silent
  priced_leg ex budget side strategy target linked (some price) =
      let volume = ex.round_volume (f.div budget price) in
      if is_zero price
      then silent
      else (if ex.requires_integer_volume && f.le volume (f.of_ℕ 0)
          then skip
          else place (record {
            price = price;
            volume = volume;
            side = side;
            strategy = strategy;
            target_rsi = some target;
            linked_to = linked;
          }))

  -- The price that is known, or else that of the signal engine, which may raise.
  unfoldable pub rsi_leg :
      Adapter R W
      → Batch
      → (ℕ → R)
      → Side
      → String
      → RsiRange R
      → Option (RsiRange R)
      → Option (List (Option R))
      → ℕ
      → ℕ
      → M R W (Leg R)
  rsi_leg ad c budgets side strategy range sells prices count i =
      let target = interpolate_range range i count in
      let asked = call (ad.get_price_by_rsi c.exchange c.ticker (some target) side c.user_id) in
      do
        price ← (elim (known_price prices i) [ some p ↦ pure (some p) | none ↦ asked ])
        let ex = ad.get_exchange c.exchange
        pure (priced_leg ex (budgets i) side strategy target (sell_target sells i count) price)

  unfoldable pub execute_rsi_orders :
      Adapter R W
      → Batch
      → (ℕ → R)
      → Side
      → String
      → RsiRange R
      → Option (RsiRange R)
      → Option (W → Answer (List (Option R)) × W)
      → ℕ
      → M R W (ℕ × ℕ)
  unfolding execute_order_batch rsi_leg
  execute_rsi_orders ad c budgets side strategy range sells get_prices count = do
    b ← gets (λ b. b)
    let ex = ad.get_exchange c.exchange
    let here = record c { is_reserved = is_reserved_now ex c.ticker b.world }
    prices ← (elim get_prices [
      | none ↦ pure none
      | some ask_all ↦ (do found ← call ask_all; pure (some found))
    ])
    counts ←
        execute_order_batch ad here (rsi_leg ad c budgets side strategy range sells prices count)
          count
    notify c.user_id batch_placed
    pure counts

  unfoldable pub execute_rsitrade_orders :
      Adapter R W
      → Batch
      → (ℕ → R)
      → RsiRange R
      → Option (RsiRange R)
      → Option (W → Answer (List (Option R)) × W)
      → ℕ
      → M R W (ℕ × ℕ)
  unfolding execute_rsi_orders
  execute_rsitrade_orders ad c budgets buys sells get_prices count =
      execute_rsi_orders ad c budgets bid "rsitrade" buys sells get_prices count

  -- Every leg has the same share.
  unfoldable pub execute_sgridrsi_orders :
      Adapter R W
      → Batch
      → R
      → RsiRange R
      → Option (W → Answer (List (Option R)) × W)
      → ℕ
      → M R W (ℕ × ℕ)
  unfolding execute_rsi_orders
  execute_sgridrsi_orders ad c budget sells get_prices count =
      execute_rsi_orders ad c (λ i. f.div budget (f.of_ℕ count)) ask "sgridrsi" sells none
        get_prices count

-- ===== src/Dca/Place.antt =====
-- The order of a scheduled purchase or sale: the checks on its amounts, and its placement, in
-- `execute_due_dca_schedules` of src/core/dca_manager.py.
use supabot.Base.{
  Bool, List, Option, String, [], any, false, if◌then◌else◌, nat_eq, none, not, some, string_eq,
  true, ℕ, ◌&&◌, ◌++◌, ◌==◌, ◌||◌, ◌∷◌,
}
use supabot.Dca.Due.{
  Desk, Response, Run, User, advanced, after, below_minimum, count_fails, failed_again,
  gate_refused, held_back, in_world, no_volume, noted, orders_failed, over_maximum, skipped,
  submitted,
}
use supabot.Dca.Schedules.{Schedule}
use supabot.Dca.Times.{Calendar}
use supabot.Base.Float.{Float, ratio}
use supabot.Base.Text.{begins_with, codes}
use supabot.Orders.Defs.{Effect, Manager, NewOrder, bid, wait}
use supabot.Orders.Manager.{add_order, get_user_orders}
use supabot.Sync.Defs.{Answer, Market, Out, got, is_bid, raised, threw, val}
use supabot.Gate.Halt.{Halt}
use supabot.Gate.Defs.{Refused, check_can_place_order, is_us_stock_ticker}
use supabot.Gate.Defs.{Request as GateRequest}

abbrev tails : List ℕ → List (List ℕ)
tails [] = [] ∷ []
tails (c ∷ cs) = (c ∷ cs) ∷ tails cs

-- `needle in text`
abbrev pub has_text : String → String → Bool
has_text needle text = any (λ cs. begins_with cs (codes needle)) (tails (codes text))

-- The words of an error that say that trading is stopped for a while.
unfoldable pub is_sidecar_error : String → Bool
is_sidecar_error message =
    any (λ word. has_text word message)
      ("사이드카" ∷ "서킷브레이커" ∷ "거래정지" ∷ "호가" ∷ "일시" ∷ "정지" ∷ "halt" ∷ [])

abbrev pub is_coin_exchange : String → Bool
is_coin_exchange exchange = exchange == "upbit" || exchange == "bithumb"

-- A user's schedule with what the run has found out about it.
pub record Deal (R W : Type 0) : Type 0 where
  pub schedule : Schedule R
  pub user : User R
  pub exchange : Market R W
  pub current : R
  pub price : R

abbrev pub deal_of : {R W : Type 0} → Schedule R → User R → Market R W → R → R → Deal R W
deal_of s user ex current price = record {
  schedule = s;
  user = user;
  exchange = ex;
  current = current;
  price = price;
}

module _ {R : Type 0} where
  -- Dollars are not compared with the limits in won.
  abbrev pub in_dollars : Schedule R → Bool
  in_dollars s = is_us_stock_ticker s.exchange s.ticker

  -- What is spent of an amount of money: a purchase leaves a part for the fee.
  abbrev pub effective : ⦃f : Float R⦄ → Schedule R → R → R
  effective ⦃f⦄ s amount = if is_bid s.side then f.mul amount (ratio 999 1000) else amount

  -- A market purchase of coins is by the budget, which was computed before; where none was, reading
  -- the variable raises.
  abbrev pub order_amounts : ⦃f : Float R⦄ → Schedule R → R → R → Option R → Option (R × R)
  order_amounts ⦃f⦄ s price volume budget =
      if s.order_type == "market"
      then (if is_bid s.side && is_coin_exchange s.exchange
          then elim budget [ none ↦ none | some x ↦ some (x, f.of_ℕ 0) ]
          else some (f.of_ℕ 0, volume))
      else some (price, volume)

  -- `validate_max_order` of src/core/parsers.py
  unfoldable pub validate_max_order : ⦃f : Float R⦄ → Option R → R → Bool → Bool
  validate_max_order ⦃f⦄ most total is_usd = elim most [
    | none ↦ true
    | some m ↦ is_usd || not (f.lt m total)
  ]

  -- The arguments of the gate: the ticker, the strategy and the counts of the day keep their defaults.
  abbrev pub gate_request : R → R → Bool → GateRequest R
  gate_request zero_loss total is_usd = record {
    new_order_krw = total;
    is_usd = is_usd;
    ticker = none;
    side = bid;
    strategy = "manual";
    today_order_count = 0;
    today_realized_loss_krw = zero_loss;
  }

module _ {R W : Type 0} where
  -- The entry of the order book. The price of an order at the market is the current one.
  abbrev pub entry_for : Deal R W → R → String → NewOrder R
  entry_for deal volume uuid =
      let s = deal.schedule in
      record {
        user_id = s.user_id;
        exchange = s.exchange;
        ticker = s.ticker;
        uuid = uuid;
        price = if s.order_type == "market" then deal.current else deal.price;
        volume = volume;
        side = s.side;
        strategy = "dca";
        target_rsi = none;
        linked_to = none;
        status = wait;
        reorder_of = none;
        stop_price = none;
        trailing_stop_pct = none;
        group_no = s.group_no;
        template_id = s.template_id;
        auto_reorder = false;
      }

  abbrev pub in_book : Manager R × List (Effect R) → Run R W → Run R W
  in_book (m, effects) b = record b { book = m; effects = b.effects ++ effects }

module _ {R W D : Type 0} ⦃f : Float R⦄ (desk : Desk R W) (cal : Calendar R D) (now : R) where
  -- The order is at the exchange: it goes to the order book, and a run of the schedule is counted.
  unfoldable pub registered : Deal R W → R → String → Run R W → Out ℕ × Run R W
  unfolding add_order advanced
  registered deal volume uuid b =
      let s = deal.schedule in
      let b' =
        in_book (add_order (entry_for deal volume uuid) (desk.clock b.world) b.book)
          (count_fails s.id 0 b) in
      after (advanced cal now s.id true b')
        (λ _ b''. (val 1, noted s.user_id (submitted s.is_carryover) b''))

  unfoldable pub handle_response : Deal R W → R → Response → Run R W → Out ℕ × Run R W
  unfolding registered held_back failed_again is_sidecar_error
  handle_response deal volume r b =
      if is_sidecar_error r.error then held_back cal now deal.schedule b else elim r.uuid [
        | some uuid ↦ registered deal volume uuid b
        | none ↦ failed_again cal now deal.schedule orders_failed b
      ]

  unfoldable pub handle_answer :
      Deal R W → R → Answer (Option Response) × W → Run R W → Out ℕ × Run R W
  unfolding handle_response failed_again
  handle_answer deal volume (threw, w) b =
      failed_again cal now deal.schedule orders_failed (in_world w b)
  handle_answer deal volume (got none, w) b =
      failed_again cal now deal.schedule orders_failed (in_world w b)
  handle_answer deal volume (got (some r), w) b = handle_response deal volume r (in_world w b)

  unfoldable pub submit : Deal R W → R → Run R W → Out ℕ × Run R W
  unfolding handle_answer
  submit deal volume b =
      let s = deal.schedule in
      elim (order_amounts s deal.price volume b.effective_budget) [
        | none ↦ (raised, b)
        | some p ↦
            handle_answer deal volume
              (desk.create_order s.user_id s.exchange s.ticker s.side p.0 p.1 s.order_type b.world)
              b
      ]

  -- The gate, and its state after it.
  unfoldable pub gate_answer : Deal R W → R → Run R W → Option Refused × Halt
  unfolding check_can_place_order
  gate_answer deal total b =
      let s = deal.schedule in
      check_can_place_order (desk.reading b.world) (desk.gate_time b.world) deal.user.prefs
        (get_user_orders s.user_id none b.book) (gate_request (f.of_ℕ 0) total (in_dollars s))
        b.halt

  unfoldable pub gated : Deal R W → R → Option Refused × Halt → Run R W → Out ℕ × Run R W
  unfolding submit skipped
  gated deal volume (some _, h) b =
      skipped cal now deal.schedule (some gate_refused) (record b { halt = h })
  gated deal volume (none, h) b = submit deal volume (record b { halt = h })

  -- A purchase is checked against the limits of the user.
  unfoldable pub checked : Deal R W → R → Run R W → Out ℕ × Run R W
  unfolding gated submit skipped validate_max_order gate_answer
  checked deal volume b =
      let s = deal.schedule in
      let total = f.mul deal.price volume in
      if is_bid s.side
      then (if validate_max_order deal.user.max_order_krw total (in_dollars s)
          then gated deal volume (gate_answer deal total b) b
          else skipped cal now s (some over_maximum) b)
      else submit deal volume b

  -- A volume of nothing, and an order that is too small, are skipped.
  unfoldable pub sized : Deal R W → R → Run R W → Out ℕ × Run R W
  unfolding checked skipped
  sized deal volume b =
      let s = deal.schedule in
      if f.le volume (f.of_ℕ 0)
      then skipped cal now s
          (if deal.exchange.requires_integer_volume then some no_volume else none) b
      else (if not (in_dollars s)
            && f.lt (f.mul deal.price volume) (desk.get_min_order_amount s.exchange)
          then skipped cal now s (some below_minimum) b
          else checked deal volume b)

  -- The volume, by the amount that is left of the schedule's.
  unfoldable pub for_amount : Deal R W → R → Run R W → Out ℕ × Run R W
  unfolding sized
  for_amount deal amount b =
      let s = deal.schedule in
      let budget = effective s amount in
      if s.amount_type == "volume"
      then sized deal (deal.exchange.round_volume amount) b
      else sized deal
          (if f.lt (f.of_ℕ 0) deal.price
            then deal.exchange.round_volume (f.div budget deal.price)
            else f.of_ℕ 0)
          (record b { effective_budget = some budget })

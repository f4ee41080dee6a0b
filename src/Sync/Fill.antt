-- ===== src/Sync/Fill.antt =====
-- What an answer of the exchange does to an order: `_process_order_fill` and
-- `_handle_cancel_requested`.
use supabot.Base.{
  Bool, Option, String, false, if◌then◌else◌, nat_eq, none, not, some, string_eq, true, ℕ, ◌&&◌,
  ◌==◌, ◌||◌,
}
use supabot.Base.Float.{Float, fmax, is_zero}
use supabot.Orders.Defs.{Order, cancel, done}
use supabot.Orders.Manager.{mark_reorder_pending}
use supabot.Sync.Defs.{
  Adapter, M, Market, Report, Trade, append_trade, call, cancelled_outside, except, filled_note,
  gets, is_bid, is_linked, is_strategy_order, notify, on_book, order, pure, remove, reorder_planned,
  status_eq, when, ◌>>=◌, ◌>>◌,
}
use supabot.Sync.Linked.{
  Outcome, create_linked_sell_order, failed, no_price, update_fill, zero_volume,
}
use supabot.Sync.Cancel.{cancel_and_remove_order}
use supabot.Sync.Submit.{restate}
use text.Mathlib.Text.{starts_with}

abbrev pub is_retried : Outcome → Bool
is_retried no_price = true
is_retried failed = true
is_retried _ = false

abbrev pub is_zero_volume : Outcome → Bool
is_zero_volume zero_volume = true
is_zero_volume _ = false

module _ {R : Type 0} where
  abbrev pub trade_of : Order R → R → R → Trade R
  trade_of o volume fee = record {
    user_id = o.user_id;
    exchange = o.exchange;
    ticker = o.ticker;
    side = o.side;
    price = o.price;
    volume = volume;
    strategy = o.strategy;
    uuid = o.uuid;
    fee_amount = fee;
    group_no = o.group_no;
    template_id = o.template_id;
  }

  abbrev pub done_report : Option (Report R) → Option (Report R)
  done_report none = none
  done_report (some r) = if status_eq r.state done then some r else none

module _ {R W : Type 0} where
  -- An expired order that is to be placed again in the next session.
  abbrev pub is_reordered : Market R W → Order R → Bool
  unfolding is_strategy_order
  is_reordered ex o =
      ex.supports_reserved_orders
      && (is_strategy_order o || o.auto_reorder)
      && not (starts_with o.strategy "kospi_top")

  abbrev pub postpone : String → R → M R W (Unit {0})
  unfolding mark_reorder_pending
  postpone uuid t =
      on_book (λ m. let (_, m', effects) = mark_reorder_pending uuid t m in (tt, m', effects))

module _ {R : Type 0} ⦃f : Float R⦄ where
  -- A purchase of rsitrade with a target.
  abbrev pub wants_linked_sell : Order R → Bool
  wants_linked_sell o = is_bid o.side && o.strategy == "rsitrade" && is_linked o.linked_to

  -- The volume and the fee that a cancelled order has brought.
  abbrev pub executed_of : Order R → Option (Report R) → R
  executed_of o none = o.filled_volume
  executed_of o (some r) = fmax o.filled_volume r.executed_volume

  abbrev pub fee_of : Option (Report R) → R
  fee_of none = f.of_ℕ 0
  fee_of (some r) = r.fee_amount

module _ {R W : Type 0} ⦃f : Float R⦄ where
  -- The order is over, and is not kept for a retry.
  unfoldable pub finish_order : Adapter R W → ℕ → Report R → M R W (Unit {0})
  finish_order ad a r = do
    o ← order a
    b ← gets (λ b. b)
    let ex = ad.get_exchange o.exchange
    if status_eq r.state cancel
        then (if is_reordered ex o
            then (do
              postpone o.uuid (ex.next_check_timestamp o.ticker b.world)
              notify o.user_id reorder_planned)
            else (do notify o.user_id cancelled_outside; remove o.uuid; pure tt))
        else (do
          append_trade (
              trade_of o (if is_zero r.executed_volume then o.filled_volume else r.executed_volume)
                r.fee_amount)
          remove o.uuid
          pure tt)

  -- The last part of `_process_order_fill`.
  unfoldable pub conclude : Adapter R W → ℕ → Report R → Bool → M R W (Unit {0})
  unfolding finish_order
  conclude ad a r keep = do
    o ← order a
    if (status_eq r.state done || status_eq r.state cancel) && not keep
        then finish_order ad a r
        else (if status_eq r.state o.status then pure tt else restate o.uuid r.state)

  unfoldable pub process_order_fill : Adapter R W → ℕ → Report R → M R W (Unit {0})
  unfolding conclude create_linked_sell_order
  process_order_fill ad a r = do
    o ← order a
    if f.lt o.filled_volume r.executed_volume
        then (if wants_linked_sell o
            then (do
              outcome ← create_linked_sell_order ad a r.executed_volume r.state
              if is_zero_volume outcome then pure tt else conclude ad a r (is_retried outcome))
            else (do
              update_fill o.uuid r.executed_volume r.state
              when (status_eq r.state done) (notify o.user_id filled_note)
              conclude ad a r false))
        else conclude ad a r false

  -- The cancellation, and the trade if something was filled.
  unfoldable pub cancel_and_book : Adapter R W → ℕ → Option (Report R) → M R W (Unit {0})
  unfolding cancel_and_remove_order
  cancel_and_book ad a report = do
    o ← order a
    removed ← cancel_and_remove_order ad o.user_id a
    when (removed && f.lt (f.of_ℕ 0) (executed_of o report))
        (append_trade (trade_of o (executed_of o report) (fee_of report)))

  unfoldable pub handle_cancel_requested : Adapter R W → ℕ → M R W (Unit {0})
  unfolding cancel_and_book process_order_fill
  handle_cancel_requested ad a = do
    o ← order a
    if starts_with o.uuid "reserved:" then (do remove o.uuid; pure tt) else (do
      report ← except (call (ad.get_order_status o.user_id o.exchange o.uuid o.ticker)) (pure none)
      elim (done_report report) [
        | some r ↦ process_order_fill ad a r
        | none ↦ cancel_and_book ad a report
      ])

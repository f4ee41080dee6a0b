-- ===== src/Budget/Events.antt =====
-- `sync_single_strategy_budget_events`: the purchases, cancellations and sales of a strategy, as its
-- rows of `orders` and `trade_logs` show them, are brought to its budget.
use supabot.Base.{
  Bool, List, Option, String, [], false, if◌then◌else◌, nat_beq, none, not, some, string_eq, true,
  ℕ, ◌++◌, ◌||◌, ◌∷◌,
}
use supabot.Base.Float.{Float}
use supabot.Base.Dict.{insert}
use supabot.Budget.Defs.{Book, Entry, OrderRow, Pending, Template, TradeRow, last_of, text_or}
use supabot.Budget.Plan.{epoch_of, is_budget_managed_strategy, is_type}
use supabot.Budget.Ledger.{
  is_recycling, recycle_sell_proceeds, refund_cancelled_orders, spend_for_buy,
}
use supabot.Budget.Setup.{ensure_budget_plan_initialized}
use supabot.Budget.Rows.{
  Run, cancelled_to_refund, cost_of, group_of, inherit_all, is_chargeable, is_new_sale,
  is_new_trade, is_settling, kept_pending, orders_by_uuid, pending_by_uuid, pending_of, proceeds_of,
  raise_group, reorder_map,
}

module _ {R : Type 0} ⦃f : Float R⦄ (insert_row : Entry R → List (Entry R) → List (Entry R)) where
  abbrev pub charge : Template R → R → String → Option ℕ → String → Run R → Run R
  charge t cost ticker group u s =
      let g = group_of group s.book.params in
      let spent =
        (spend_for_buy insert_row t cost (text_or ticker t.ticker) g u none none true s.book).1 in
      record s {
        book = record spent { params = raise_group g spent.params };
        accounted = s.accounted ++ u ∷ [];
        dirty = true;
      }

  abbrev pub charge_order : Template R → OrderRow R → Run R → Run R
  charge_order t o s =
      let g = group_of o.group_no s.book.params in
      let charged = charge t (cost_of o.price o.volume) o.ticker o.group_no o.uuid s in
      let pb = pending_of o (text_or o.ticker t.ticker) g (epoch_of s.book.params) in
      if is_chargeable o s.accounted
      then record charged { pending = insert o.uuid pb s.pending }
      else s

  unfoldable pub charge_orders : Template R → List (OrderRow R) → Run R → Run R
  charge_orders t [] s = s
  charge_orders t (o ∷ os) s = charge_orders t os (charge_order t o s)

  abbrev pub charge_trade : Template R → TradeRow R → Run R → Run R
  charge_trade t tr s =
      if is_new_trade tr s.accounted
      then charge t (cost_of tr.price tr.volume) tr.ticker tr.group_no tr.uuid s
      else s

  unfoldable pub charge_trades : Template R → List (TradeRow R) → Run R → Run R
  charge_trades t [] s = s
  charge_trades t (tr ∷ trs) s = charge_trades t trs (charge_trade t tr s)

  -- The book, the uuids of the sales that went into it, and whether one did.
  abbrev pub recycle_trade :
      Template R → TradeRow R → Book R × List String × Bool → Book R × List String × Bool
  recycle_trade t tr (b, recycled, dirty) =
      let next =
        recycle_sell_proceeds insert_row t (proceeds_of tr) (text_or tr.ticker t.ticker)
          (some tr.uuid) tr.group_no b in
      if is_new_sale tr recycled
      then (next, recycled ++ tr.uuid ∷ [], true)
      else (b, recycled, dirty)

  unfoldable pub recycle_trades :
      Template R → List (TradeRow R) → Book R × List String × Bool → Book R × List String × Bool
  recycle_trades t [] s = s
  recycle_trades t (tr ∷ trs) s = recycle_trades t trs (recycle_trade t tr s)

  -- Step 4.
  unfoldable pub recycle_sales : Template R → List (TradeRow R) → Book R × Bool → Book R × Bool
  recycle_sales t trades (b, dirty) =
      let (b', recycled, dirty') =
        recycle_trades t trades (b, b.params.recycled_sell_uuids, dirty) in
      let p = b'.params in
      if is_recycling b.params
      then (record b' { params = record p { recycled_sell_uuids = last_of 500 recycled } }, dirty')
      else (b, dirty)

  -- Steps 1 and 2.
  unfoldable pub charge_all :
      Template R → List (OrderRow R) → List (TradeRow R) → Bool → Book R → Run R
  charge_all t orders trades dirty b =
      let start : Run R = record {
        book = b;
        accounted = b.params.accounted_buy_order_uuids;
        pending = pending_by_uuid b.params.pending_buy_orders [];
        dirty = dirty;
      } in
      charge_trades t trades (charge_orders t orders (inherit_all (reorder_map orders []) start))

  -- Step 3.
  unfoldable pub refund_all : Template R → List (Pending R) → Book R → Book R
  refund_all t [] b = b
  refund_all t (pb ∷ pbs) b = refund_cancelled_orders insert_row t (pb ∷ pbs) b

  -- The whole of it, once the plan is set up.
  unfoldable pub sync_rows :
      Template R → List (OrderRow R) → List (TradeRow R) → Bool → Book R → Book R × Bool
  sync_rows t orders trades dirty b =
      let s = charge_all t orders trades dirty b in
      let rows = orders_by_uuid orders [] in
      let refunded = refund_all t (cancelled_to_refund rows trades s.pending) s.book in
      let (b', dirty') =
        recycle_sales t trades (refunded, s.dirty || is_settling rows trades s.pending) in
      let p = b'.params in
      (
        record b' {
          params = record p {
            accounted_buy_order_uuids = last_of 500 s.accounted;
            pending_buy_orders = kept_pending rows trades s.pending;
          };
        },
        dirty',
      )

  -- The rows are what the two queries give, none if one fails. The second result says whether the
  -- caller's `persist` stores the new `params`.
  unfoldable pub sync_single_strategy_budget_events :
      Template R → List (OrderRow R) → List (TradeRow R) → Book R → Book R × Bool
  sync_single_strategy_budget_events t orders trades b =
      let (ready, is_new) = ensure_budget_plan_initialized insert_row t true b in
      if is_type t.strategy_type "kospi_top_dca" || not (is_budget_managed_strategy t b.params)
      then (b, false)
      else (if nat_beq t.id 0 then (ready, false) else sync_rows t orders trades is_new ready)

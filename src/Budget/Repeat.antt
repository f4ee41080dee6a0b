-- ===== src/Budget/Repeat.antt =====
-- What refunds, recycled sales and the first set-up do to a ledger: they add rows, none a purchase.
use supabot.Base.{
  Bool, Bool-cases, List, Option, String, [], false, if◌then◌else◌, inl, inr, ltb, not, refl, some,
  string_eq, true, ℕ, ◌+◌, ◌||◌, ◌∷◌, ◌≡◌,
}
use supabot.Base.Float.{Float}
use supabot.Budget.Defs.{
  Book, Entry, EntryType, OrderRow, Params, Pending, Template, TradeRow, buy_order_spend, text_or,
}
use supabot.Budget.Plan.{carryover_of, epoch_of, is_budget_managed_strategy, spent_of}
use supabot.Budget.Ledger.{
  is_recycling, recycle_sell_proceeds, refund_cancelled_orders, refund_of, refund_order,
  refund_orders,
}
use supabot.Budget.Setup.{ensure_budget_plan_initialized}
use supabot.Budget.Rows.{cancelled_to_refund, is_new_sale, is_settling, orders_by_uuid, proceeds_of}
use supabot.Budget.Events.{
  charge_all, recycle_sales, recycle_trade, recycle_trades, refund_all, sync_rows,
}

abbrev pub is_spend : EntryType → Bool
is_spend buy_order_spend = true
is_spend other = false

-- The purchases that a ledger charges.
abbrev pub count_spends : {R : Type 0} → List (Entry R) → ℕ
count_spends [] = 0
count_spends (e ∷ es) = (if is_spend e.entry_type then 1 else 0) + count_spends es

-- A property of ledgers that every row but a purchase keeps.
module _ {R : Type 0} ⦃f : Float R⦄ (insert_row : Entry R → List (Entry R) → List (Entry R))
    (t : Template R) (P : List (Entry R) → Type 0)
    (add : (e : Entry R) (l : List (Entry R))
      → is_spend e.entry_type ≡ false
      → P l
      → P (insert_row e l)) where
  refund_order_keeps :
      (p : Params R) (pb : Pending R) (c s : R) (l : List (Entry R))
      → P l
      → P (refund_order insert_row t p pb (c, s, l)).2
  refund_order_keeps p pb c s l h = elim (Bool-cases (f.le (refund_of pb) (f.of_ℕ 0))) [
    | inl none_left ↦ rw none_left h
    | inr due ↦ rw due (elim (Bool-cases (ltb pb.budget_epoch (epoch_of p))) [
      | inl old ↦ rw old (add _ l refl h)
      | inr same ↦ rw same (add _ l refl h)
    ])
  ]

  refund_orders_keeps :
      (p : Params R) (pbs : List (Pending R)) (c s : R) (l : List (Entry R))
      → P l
      → P (refund_orders insert_row t p pbs (c, s, l)).2
  refund_orders_keeps p [] c s l h = h
  refund_orders_keeps p (pb ∷ pbs) c s l h =
      let r = refund_order insert_row t p pb (c, s, l) in
      refund_orders_keeps p pbs r.0 r.1 r.2 (refund_order_keeps p pb c s l h)

  refund_all_keeps :
      (pbs : List (Pending R)) (b : Book R) → P b.ledger → P (refund_all insert_row t pbs b).ledger
  unfolding refund_all refund_cancelled_orders
  refund_all_keeps [] b h = h
  refund_all_keeps (pb ∷ pbs) b h =
      refund_orders_keeps b.params (pb ∷ pbs) (carryover_of b.params) (spent_of b.params) b.ledger h

  recycle_keeps :
      (proceeds : R) (ticker : String) (u : Option String) (group : Option ℕ) (b : Book R)
      → P b.ledger
      → P (recycle_sell_proceeds insert_row t proceeds ticker u group b).ledger
  unfolding recycle_sell_proceeds
  recycle_keeps proceeds ticker u group b h =
      elim (Bool-cases (not (is_recycling b.params) || f.le proceeds (f.of_ℕ 0))) [
        | inl skipped ↦ rw skipped h
        | inr taken ↦ rw taken (add _ b.ledger refl h)
      ]

  recycle_trade_keeps :
      (trade : TradeRow R) (b : Book R) (us : List String) (dirty : Bool)
      → P b.ledger
      → P (recycle_trade insert_row t trade (b, us, dirty)).0.ledger
  recycle_trade_keeps trade b us dirty h = elim (Bool-cases (is_new_sale trade us)) [
    | inl new ↦ rw new (
        recycle_keeps (proceeds_of trade) (text_or trade.ticker t.ticker) (some trade.uuid)
          trade.group_no b h)
    | inr old ↦ rw old h
  ]

  recycle_trades_keeps :
      (trades : List (TradeRow R)) (b : Book R) (us : List String) (dirty : Bool)
      → P b.ledger
      → P (recycle_trades insert_row t trades (b, us, dirty)).0.ledger
  unfolding recycle_trades
  recycle_trades_keeps [] b us dirty h = h
  recycle_trades_keeps (trade ∷ trades) b us dirty h =
      let r = recycle_trade insert_row t trade (b, us, dirty) in
      recycle_trades_keeps trades r.0 r.1 r.2 (recycle_trade_keeps trade b us dirty h)

  recycle_sales_keeps :
      (trades : List (TradeRow R)) (b : Book R) (dirty : Bool)
      → P b.ledger
      → P (recycle_sales insert_row t trades (b, dirty)).0.ledger
  unfolding recycle_sales
  recycle_sales_keeps trades b dirty h = elim (Bool-cases (is_recycling b.params)) [
    | inl on ↦ rw on (recycle_trades_keeps trades b b.params.recycled_sell_uuids dirty h)
    | inr off ↦ rw off h
  ]

  added_if :
      (c : Bool) (e : Entry R) (l : List (Entry R))
      → is_spend e.entry_type ≡ false
      → P l
      → P (if c then insert_row e l else l)
  added_if true e l other h = add e l other h
  added_if false e l other h = h

  pub ensure_keeps :
      (record_initial : Bool) (b : Book R)
      → P b.ledger
      → P (ensure_budget_plan_initialized insert_row t record_initial b).0.ledger
  unfolding ensure_budget_plan_initialized
  ensure_keeps record_initial b h = elim (Bool-cases (is_budget_managed_strategy t b.params)) [
    | inl managed ↦ rw managed (added_if _ _ b.ledger refl h)
    | inr other ↦ rw other h
  ]

  -- Steps 3 and 4 keep it, after steps 1 and 2.
  pub sync_rows_keeps :
      (orders : List (OrderRow R)) (trades : List (TradeRow R)) (dirty : Bool) (b : Book R)
      → P (charge_all insert_row t orders trades dirty b).book.ledger
      → P (sync_rows insert_row t orders trades dirty b).0.ledger
  unfolding sync_rows
  sync_rows_keeps orders trades dirty b h =
      let s = charge_all insert_row t orders trades dirty b in
      let rows = orders_by_uuid orders [] in
      let pbs = cancelled_to_refund rows trades s.pending in
      recycle_sales_keeps trades (refund_all insert_row t pbs s.book)
        (s.dirty || is_settling rows trades s.pending) (refund_all_keeps pbs s.book h)

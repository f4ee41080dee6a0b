-- ===== src/Daily/Holdings.antt =====
-- `get_template_holdings` and `_get_next_global_group_no` of
-- manager/backend/services/progression_manager.py: the holdings of a strategy by its trades, and the
-- next number of a batch. The rows are what the database gives; a failed query leaves what was
-- counted so far, which is nothing, and the fallback.
use supabot.Base.{
  List, Option, String, [], if◌then◌else◌, max, none, some, string_eq, ℕ, ◌+◌, ◌==◌, ◌∷◌,
}
use supabot.Base.Float.{Float, fmax, ratio}
use supabot.Base.Dict.{Dict, insert, lookup}
use supabot.Budget.Defs.{TradeRow, value_or}
use supabot.Daily.Defs.{Holding}

module _ {R : Type 0} ⦃f : Float R⦄ where
  abbrev pub empty_holding : Holding R
  empty_holding = record { qty = f.of_ℕ 0; total_cost = f.of_ℕ 0; avg_price = f.of_ℕ 0 }

  abbrev pub bought_more : TradeRow R → Holding R → Holding R
  bought_more tr h = record h {
    total_cost = f.add h.total_cost (f.add (f.mul tr.price tr.volume) tr.fee_amount);
    qty = f.add h.qty tr.volume;
  }

  -- A sale is taken at the average cost, and no more than is held.
  abbrev pub sold_some : TradeRow R → Holding R → Holding R
  sold_some tr h =
      let unit_cost = f.div h.total_cost h.qty in
      let qty = fmax (f.of_ℕ 0) (f.sub h.qty tr.volume) in
      if f.lt (f.of_ℕ 0) h.qty
      then record h { qty = qty; total_cost = fmax (f.of_ℕ 0) (f.mul qty unit_cost) }
      else h

  abbrev pub book_trade : TradeRow R → Dict String (Holding R) → Dict String (Holding R)
  book_trade tr d =
      let h = value_or (lookup tr.ticker d) empty_holding in
      insert tr.ticker (if tr.side == "bid" then bought_more tr h else sold_some tr h) d

  unfoldable pub book_trades : List (TradeRow R) → Dict String (Holding R) → Dict String (Holding R)
  book_trades [] d = d
  book_trades (tr ∷ trs) d = book_trades trs (book_trade tr d)

  -- What is as good as nothing is dropped, and the rest has its average price.
  abbrev pub close_holdings : Dict String (Holding R) → Dict String (Holding R)
  close_holdings [] = []
  close_holdings ((code, h) ∷ d) =
      let rest = close_holdings d in
      let priced : Holding R = record h {
        avg_price = if f.lt (f.of_ℕ 0) h.qty then f.div h.total_cost h.qty else f.of_ℕ 0;
      } in
      if f.le h.qty (ratio 1 1_000_000) then rest else (code, priced) ∷ rest

  unfoldable pub get_template_holdings : Option (List (TradeRow R)) → Dict String (Holding R)
  unfolding book_trades
  get_template_holdings none = []
  get_template_holdings (some trades) = close_holdings (book_trades trades [])

-- The greatest numbers of the orders and of the trades, `none` where there is no row or no number in
-- it; the whole is `none` if there is no user or a query fails.
abbrev pub next_group : ℕ → Option (Option ℕ × Option ℕ) → ℕ
next_group fallback none = fallback
next_group fallback (some (order_no, trade_no)) =
    max fallback (max (value_or order_no 0 + 1) (value_or trade_no 0 + 1))

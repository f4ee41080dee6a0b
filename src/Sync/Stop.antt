-- ===== src/Sync/Stop.antt =====
-- The stop of a take-profit order: `_apply_stop_loss`.
use supabot.Base.{
  Bool, Option, String, false, if◌then◌else◌, nat_eq, none, not, some, string_eq, suc, true, zero,
  ℕ, ◌&&◌, ◌==◌,
}
use supabot.Base.Float.{Float, is_zero, ratio}
use supabot.Orders.Defs.{NewOrder, Order, Status, ask, wait}
use supabot.Orders.Manager.{update_order_stop_price}
use supabot.Sync.Defs.{
  Adapter, M, Market, Quote, call, notify, observe, on_book, order, pure, remove, status_eq,
  stop_loss_done, stop_loss_unplaced, val, ◌>>=◌, ◌>>◌,
}
use supabot.Sync.Linked.{add}

module _ {R : Type 0} where
  abbrev pub stop_sell : Order R → String → R → R → NewOrder R
  stop_sell o uuid price volume = record {
    user_id = o.user_id;
    exchange = o.exchange;
    ticker = o.ticker;
    uuid = uuid;
    price = price;
    volume = volume;
    side = ask;
    strategy = "stoploss";
    target_rsi = none;
    linked_to = none;
    status = wait;
    reorder_of = none;
    stop_price = none;
    trailing_stop_pct = none;
    group_no = none;
    template_id = none;
    auto_reorder = false;
  }

module _ {R W : Type 0} where
  abbrev pub store_price : Order R → R → M R W R
  store_price o p b = (
    val p,
    record b {
      prices = λ ex ticker.
          if ex == o.exchange && ticker == o.ticker then some p else b.prices ex ticker;
    },
  )

module _ {R : Type 0} ⦃f : Float R⦄ where
  -- The stored stop price, if the test takes it for true.
  abbrev pub guarded_stop : Order R → Status → Option R
  guarded_stop o st = elim o.stop_price [
    | none ↦ none
    | some sp ↦
        if o.strategy == "rsitrade_sell" && not (is_zero sp) && status_eq st wait
        then some sp
        else none
  ]

  abbrev pub trade_price_of : Option (Quote R) → R
  trade_price_of none = f.of_ℕ 0
  trade_price_of (some q) = q.trade_price

  abbrev pub is_under_stop : R → Option R → Bool
  is_under_stop current none = false
  is_under_stop current (some sp) = not (is_zero current) && f.lt current sp

module _ {R W : Type 0} ⦃f : Float R⦄ where
  -- The price of the stream, or else of a query; once in a run.
  unfoldable pub current_price : Adapter R W → Order R → M R W R
  current_price ad o b =
      let asked : M R W R = call (ad.get_ticker o.user_id o.exchange o.ticker) >>= λ q.
      store_price o (trade_price_of q) in
      elim (b.prices o.exchange o.ticker) [
        | some p ↦ (val p, b)
        | none ↦ elim (ad.get_price o.exchange o.ticker b.world) [
          | none ↦ asked b
          | some p ↦ (if f.lt (f.of_ℕ 0) p then store_price o p else asked) b
        ]
      ]

  -- The trailing stop: only a greater stop price is written.
  unfoldable pub trail : Market R W → Order R → R → R → M R W (Unit {0})
  unfolding update_order_stop_price
  trail ex o sp current = elim o.trailing_stop_pct [
    | none ↦ pure tt
    | some pct ↦
        let factor = f.sub (f.of_ℕ 1) (f.div pct (f.of_ℕ 100)) in
        let expected = ex.adjust_price_to_tick (f.mul current factor) o.ticker in
        if f.lt (f.of_ℕ 0) current && f.lt sp expected
        then on_book (λ m.
          let (_, m', effects) = update_order_stop_price o.uuid (some expected) m in
          (tt, m', effects))
        else pure tt
  ]

  -- `for _ in range(n)`, up to the first uuid.
  unfoldable pub try_sell : Adapter R W → Order R → R → R → ℕ → M R W (Option String)
  try_sell ad o price volume zero = pure none
  try_sell ad o price volume (suc n) =
      let again = try_sell ad o price volume n in
      do
        placed ← call (ad.create_order o.user_id o.exchange o.ticker ask price volume)
        elim placed [ some u ↦ pure (some u) | none ↦ again ]

  -- The take-profit order is cancelled at the exchange; the sale at the stop is tried three times.
  unfoldable pub sell_at_stop : Adapter R W → Order R → R → M R W (Unit {0})
  unfolding try_sell
  sell_at_stop ad o current = do
    let ex = ad.get_exchange o.exchange
    let remaining = f.sub o.volume o.filled_volume
    let price = ex.adjust_price_to_tick (f.mul current (ratio 999 1000)) o.ticker
    placed ← try_sell ad o price remaining 3
    remove o.uuid
    now ← observe ad.now
    elim placed [
      | some u ↦ (do add (stop_sell o u price remaining) now; notify o.user_id stop_loss_done)
      | none ↦ notify o.user_id stop_loss_unplaced
    ]

  unfoldable pub apply_stop_loss : Adapter R W → ℕ → Status → M R W Bool
  unfolding current_price trail sell_at_stop
  apply_stop_loss ad a st = do
    o ← order a
    elim (guarded_stop o st) [
      | none ↦ pure false
      | some sp ↦ (do
        current ← current_price ad o
        trail (ad.get_exchange o.exchange) o sp current
        now_o ← order a
        if is_under_stop current now_o.stop_price
            then (do
              ok ← call (ad.cancel_order o.user_id o.exchange o.uuid o.ticker)
              if ok then (do sell_at_stop ad now_o current; pure true) else pure true)
            else pure false)
    ]

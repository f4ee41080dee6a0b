-- ===== src/Sync/Linked.antt =====
-- The take-profit order behind a filled rsitrade purchase: `_create_linked_sell_order`.
use supabot.Base.{
  Bool, List, Option, String, [], false, filter, if◌then◌else◌, nat_eq, none, some, string_eq, ℕ,
  ◌&&◌, ◌==◌, ◌||◌, ◌∷◌,
}
use supabot.Base.Float.{Float, is_zero}
use supabot.Base.Text.{ends_with, same_codes, upper}
use supabot.Orders.Defs.{Manager, NewOrder, Order, Status, ask, wait}
use supabot.Orders.Manager.{add_order, all_orders, update_order_fill}
use supabot.Sync.Defs.{
  Adapter, Balance, M, Market, call, except, external_sold_note, gets, linked_sell_created, notify,
  observe, on_book, order, pure, resolve_linked_rsi_target, ◌>>=◌, ◌>>◌,
}

-- The result, by the texts of the source.
pub data Outcome : Type 0 where
  created exists no_price zero_volume failed external_sold : Outcome

module _ {R : Type 0} where
  -- `_find_linked_sell_orders`: the sells that were made for the purchase.
  abbrev pub is_linked_sell : String → Order R → Bool
  is_linked_sell buy o =
      o.strategy == "rsitrade_sell" && elim o.reorder_of [ none ↦ false | some u ↦ u == buy ]

  unfoldable pub find_linked_sell_orders : String → Manager R → List (Order R)
  find_linked_sell_orders buy m = filter (is_linked_sell buy) (all_orders m)

  -- The test of a balance: the same name, or the end of the other.
  abbrev pub is_balance_of : String → Balance R → Bool
  is_balance_of ticker b =
      same_codes (upper b.currency) (upper ticker)
      || ends_with ticker b.currency
      || ends_with b.currency ticker

  abbrev pub linked_sell : Order R → String → R → R → Option R → Option R → NewOrder R
  linked_sell o uuid price volume target stop = record {
    user_id = o.user_id;
    exchange = o.exchange;
    ticker = o.ticker;
    uuid = uuid;
    price = price;
    volume = volume;
    side = ask;
    strategy = "rsitrade_sell";
    target_rsi = target;
    linked_to = none;
    status = wait;
    reorder_of = some o.uuid;
    stop_price = stop;
    trailing_stop_pct = none;
    group_no = o.group_no;
    template_id = o.template_id;
    auto_reorder = false;
  }

module _ {R : Type 0} ⦃f : Float R⦄ where
  -- `sum(float(s["volume"]) for s in ...)`, from the left.
  abbrev pub sum_volumes : R → List (Order R) → R
  sum_volumes acc [] = acc
  sum_volumes acc (o ∷ os) = sum_volumes (f.add acc o.volume) os

  abbrev pub avail_volume : String → List (Balance R) → R
  avail_volume ticker [] = f.of_ℕ 0
  avail_volume ticker (b ∷ bs) =
      if is_balance_of ticker b then b.balance else avail_volume ticker bs

  -- `if not sell_price`: no price, or zero.
  abbrev pub has_price : Option R → Option R
  has_price none = none
  has_price (some p) = if is_zero p then none else some p

module _ {R W : Type 0} ⦃f : Float R⦄ where
  -- The stop price under the purchase, at the user's percentage.
  abbrev pub stop_price_of : Market R W → R → Order R → Option R
  stop_price_of ex pct o =
      if f.lt (f.of_ℕ 0) pct
      then some (
          ex.adjust_price_to_tick (f.mul o.price (f.sub (f.of_ℕ 1) (f.div pct (f.of_ℕ 100))))
            o.ticker)
      else none

  -- `order_manager.add_order`
  abbrev pub add : NewOrder R → R → M R W (Unit {0})
  unfolding add_order
  add n now = on_book (λ m. let (m', effects) = add_order n now m in (tt, m', effects))

  abbrev pub update_fill : String → R → Status → M R W (Unit {0})
  unfolding update_order_fill
  update_fill uuid filled st =
      on_book (λ m. let (_, m', effects) = update_order_fill uuid filled st m in (tt, m', effects))

  -- After a placement that failed: too small a balance means that the user has sold elsewhere.
  unfoldable pub after_failed_sell : Adapter R W → Order R → R → Status → R → M R W Outcome
  after_failed_sell ad o exec st sell_volume =
      except
        (do
          balances ← call (ad.get_balances o.user_id o.exchange)
          if f.lt (avail_volume o.ticker balances) sell_volume
              then (do
                update_fill o.uuid exec st
                notify o.user_id external_sold_note
                pure external_sold)
              else pure failed)
        (pure failed)

  unfoldable pub place_linked_sell :
      Adapter R W → Order R → R → Status → R → Option R → R → M R W Outcome
  unfolding after_failed_sell
  place_linked_sell ad o exec st needed target sell_price =
      let ex = ad.get_exchange o.exchange in
      let sell_volume = ex.round_volume needed in
      if ex.requires_integer_volume && f.le sell_volume (f.of_ℕ 0) then pure zero_volume else do
        placed ←
            except (call (ad.create_order o.user_id o.exchange o.ticker ask sell_price sell_volume))
              (pure none)
        elim placed [
          | none ↦ after_failed_sell ad o exec st sell_volume
          | some uuid ↦ do
            now ← observe ad.now
            add
                (linked_sell o uuid sell_price sell_volume target
                  (stop_price_of ex (ad.stop_loss_pct o.user_id) o))
                now
            update_fill o.uuid exec st
            notify o.user_id linked_sell_created
            pure created
        ]

  -- The purchase is the order at the address; `exec` and `st` are what the exchange reports of it.
  unfoldable pub create_linked_sell_order : Adapter R W → ℕ → R → Status → M R W Outcome
  unfolding find_linked_sell_orders place_linked_sell
  create_linked_sell_order ad a exec st = do
    o ← order a
    linked ← gets (λ b. find_linked_sell_orders o.uuid b.book)
    let existing = sum_volumes (f.of_ℕ 0) linked
    let needed = f.sub exec existing
    if f.le exec existing || f.le needed (f.of_ℕ 0)
        then (do update_fill o.uuid exec st; pure exists)
        else (do
          let target = resolve_linked_rsi_target o.linked_to
          price ← call (ad.get_price_by_rsi o.exchange o.ticker target ask o.user_id)
          elim (has_price price) [
            | none ↦ pure no_price
            | some sell_price ↦ place_linked_sell ad o exec st needed target sell_price
          ])

-- ===== src/Budget/Once.antt =====
-- What a synchronisation charges: every purchase once, as long as its uuid is remembered.
use supabot.Base.{
  ==_self, All, Bool, Bool-cases, List, String, [], arith, false, inl, inr, not, refl, string_eq,
  true, ◌&&◌, ◌++◌, ◌∙◌, ◌∷◌, ◌≡◌,
}
use supabot.Base.Float.{Float}
use supabot.Base.Dict.{Dict}
use supabot.Budget.Defs.{Book, Entry, OrderRow, Template, TradeRow, mem_text}
use supabot.Budget.Rows.{
  Run, inherit, inherit_all, is_chargeable, is_new_trade, pending_by_uuid, reorder_map,
}
use supabot.Budget.Events.{charge_all, charge_order, charge_orders, charge_trade, charge_trades}

mem_text-append_last : (u : String) (us : List String) → mem_text u (us ++ u ∷ []) ≡ true
mem_text-append_last u [] = rw (==_self u) refl
mem_text-append_last u (v ∷ us) = ground (arith, mem_text-append_last u us)

mem_text-append :
    (u : String) (us vs : List String) → mem_text u us ≡ true → mem_text u (us ++ vs) ≡ true
mem_text-append u [] vs h = cc
mem_text-append u (w ∷ us) vs h = ground (arith, mem_text-append u us vs)

-- The texts of a list are texts of another.
abbrev pub Within : List String → List String → Type 0
Within us vs = (u : String) → mem_text u us ≡ true → mem_text u vs ≡ true

module _ {R : Type 0} ⦃f : Float R⦄ where
  -- Of the orders and of the trades, none is left to charge.
  abbrev pub AreCharged : List (OrderRow R) → List String → Type 0
  AreCharged os us = All (λ o. is_chargeable o us ≡ false) os

  abbrev pub AreBooked : List (TradeRow R) → List String → Type 0
  AreBooked trs us = All (λ tr. is_new_trade tr us ≡ false) trs

  chargeable-Within :
      (o : OrderRow R) (us vs : List String)
      → Within us vs
      → is_chargeable o us ≡ false
      → is_chargeable o vs ≡ false
  chargeable-Within o us vs w h = ground (arith, w o.uuid)

  new_trade-Within :
      (tr : TradeRow R) (us vs : List String)
      → Within us vs
      → is_new_trade tr us ≡ false
      → is_new_trade tr vs ≡ false
  new_trade-Within tr us vs w h = ground (arith, w tr.uuid)

  pub AreCharged-Within :
      (os : List (OrderRow R)) (us vs : List String)
      → Within us vs
      → AreCharged os us
      → AreCharged os vs
  AreCharged-Within [] us vs w h = tt
  AreCharged-Within (o ∷ os) us vs w h =
      (chargeable-Within o us vs w h.0, AreCharged-Within os us vs w h.1)

  pub AreBooked-Within :
      (trs : List (TradeRow R)) (us vs : List String)
      → Within us vs
      → AreBooked trs us
      → AreBooked trs vs
  AreBooked-Within [] us vs w h = tt
  AreBooked-Within (tr ∷ trs) us vs w h =
      (new_trade-Within tr us vs w h.0, AreBooked-Within trs us vs w h.1)

  charged_now : (o : OrderRow R) (us : List String) → is_chargeable o (us ++ o.uuid ∷ []) ≡ false
  charged_now o us = ground (arith, mem_text-append_last o.uuid us)

  booked_now : (tr : TradeRow R) (us : List String) → is_new_trade tr (us ++ tr.uuid ∷ []) ≡ false
  booked_now tr us = ground (arith, mem_text-append_last tr.uuid us)

module _ {R : Type 0} ⦃f : Float R⦄ (insert_row : Entry R → List (Entry R) → List (Entry R))
    (t : Template R) where
  charge_order-Within :
      (o : OrderRow R) (s : Run R) → Within s.accounted (charge_order insert_row t o s).accounted
  charge_order-Within o s u h = elim (Bool-cases (is_chargeable o s.accounted)) [
    | inl new ↦ rw new (mem_text-append u s.accounted (o.uuid ∷ []) h)
    | inr old ↦ rw old h
  ]

  charge_order_charges :
      (o : OrderRow R) (s : Run R)
      → is_chargeable o (charge_order insert_row t o s).accounted ≡ false
  charge_order_charges o s = elim (Bool-cases (is_chargeable o s.accounted)) [
    | inl new ↦ rw new (charged_now o s.accounted)
    | inr old ↦ rw old old
  ]

  charge_orders-Within :
      (os : List (OrderRow R)) (s : Run R)
      → Within s.accounted (charge_orders insert_row t os s).accounted
  unfolding charge_orders
  charge_orders-Within [] s u h = h
  charge_orders-Within (o ∷ os) s u h =
      charge_orders-Within os (charge_order insert_row t o s) u (charge_order-Within o s u h)

  charge_orders-AreCharged :
      (os : List (OrderRow R)) (s : Run R)
      → AreCharged os (charge_orders insert_row t os s).accounted
  unfolding charge_orders
  charge_orders-AreCharged [] s = tt
  charge_orders-AreCharged (o ∷ os) s =
      let next = charge_order insert_row t o s in
      (
        chargeable-Within o next.accounted (charge_orders insert_row t os next).accounted
            (charge_orders-Within os next) (charge_order_charges o s),
        charge_orders-AreCharged os next,
      )

  charge_orders_idle :
      (os : List (OrderRow R)) (s : Run R)
      → AreCharged os s.accounted
      → charge_orders insert_row t os s ≡ s
  unfolding charge_orders
  charge_orders_idle [] s h = refl
  charge_orders_idle (o ∷ os) s h = rw h.0 (charge_orders_idle os s h.1)

  charge_trade-Within :
      (tr : TradeRow R) (s : Run R) → Within s.accounted (charge_trade insert_row t tr s).accounted
  charge_trade-Within tr s u h = elim (Bool-cases (is_new_trade tr s.accounted)) [
    | inl new ↦ rw new (mem_text-append u s.accounted (tr.uuid ∷ []) h)
    | inr old ↦ rw old h
  ]

  charge_trade_books :
      (tr : TradeRow R) (s : Run R)
      → is_new_trade tr (charge_trade insert_row t tr s).accounted ≡ false
  charge_trade_books tr s = elim (Bool-cases (is_new_trade tr s.accounted)) [
    | inl new ↦ rw new (booked_now tr s.accounted)
    | inr old ↦ rw old old
  ]

  charge_trades-Within :
      (trs : List (TradeRow R)) (s : Run R)
      → Within s.accounted (charge_trades insert_row t trs s).accounted
  unfolding charge_trades
  charge_trades-Within [] s u h = h
  charge_trades-Within (tr ∷ trs) s u h =
      charge_trades-Within trs (charge_trade insert_row t tr s) u (charge_trade-Within tr s u h)

  charge_trades-AreBooked :
      (trs : List (TradeRow R)) (s : Run R)
      → AreBooked trs (charge_trades insert_row t trs s).accounted
  unfolding charge_trades
  charge_trades-AreBooked [] s = tt
  charge_trades-AreBooked (tr ∷ trs) s =
      let next = charge_trade insert_row t tr s in
      (
        new_trade-Within tr next.accounted (charge_trades insert_row t trs next).accounted
            (charge_trades-Within trs next) (charge_trade_books tr s),
        charge_trades-AreBooked trs next,
      )

  charge_trades_idle :
      (trs : List (TradeRow R)) (s : Run R)
      → AreBooked trs s.accounted
      → charge_trades insert_row t trs s ≡ s
  unfolding charge_trades
  charge_trades_idle [] s h = refl
  charge_trades_idle (tr ∷ trs) s h = rw h.0 (charge_trades_idle trs s h.1)

  -- Steps 1 and 2 leave nothing to charge.
  pub charge_all-AreCharged :
      (orders : List (OrderRow R)) (trades : List (TradeRow R)) (dirty : Bool) (b : Book R)
      → let us = (charge_all insert_row t orders trades dirty b).accounted in
        AreCharged orders us × AreBooked trades us
  unfolding charge_all
  charge_all-AreCharged orders trades dirty b =
      let start : Run R = record {
        book = b;
        accounted = b.params.accounted_buy_order_uuids;
        pending = pending_by_uuid b.params.pending_buy_orders [];
        dirty = dirty;
      } in
      let s = inherit_all (reorder_map orders []) start in
      let s' = charge_orders insert_row t orders s in
      (
        AreCharged-Within orders s'.accounted (charge_trades insert_row t trades s').accounted
            (charge_trades-Within trades s') (charge_orders-AreCharged orders s),
        charge_trades-AreBooked trades s',
      )

module _ {R : Type 0} where
  inherit-Within : (old new : String) (s : Run R) → Within s.accounted (inherit old new s).accounted
  inherit-Within old new s u h =
      elim (Bool-cases (mem_text old s.accounted && not (mem_text new s.accounted))) [
        | inl taken ↦ rw taken (mem_text-append u s.accounted (new ∷ []) h)
        | inr left ↦ rw left h
      ]

  inherit-book : (old new : String) (s : Run R) → (inherit old new s).book ≡ s.book
  inherit-book old new s =
      elim (Bool-cases (mem_text old s.accounted && not (mem_text new s.accounted))) [
        | inl taken ↦ rw taken refl
        | inr left ↦ rw left refl
      ]

  pub inherit_all-Within :
      (d : Dict String (OrderRow R)) (s : Run R) → Within s.accounted (inherit_all d s).accounted
  inherit_all-Within [] s u h = h
  inherit_all-Within ((old, o) ∷ d) s u h =
      inherit_all-Within d (inherit old o.uuid s) u (inherit-Within old o.uuid s u h)

  pub inherit_all-book :
      (d : Dict String (OrderRow R)) (s : Run R) → (inherit_all d s).book ≡ s.book
  inherit_all-book [] s = refl
  inherit_all-book ((old, o) ∷ d) s =
      inherit_all-book d (inherit old o.uuid s) ∙ inherit-book old o.uuid s

module _ {R : Type 0} ⦃f : Float R⦄ (insert_row : Entry R → List (Entry R) → List (Entry R))
    (t : Template R) where
  -- Where nothing is left to charge, steps 1 and 2 leave the book alone.
  pub charge_all_idle :
      (orders : List (OrderRow R)) (trades : List (TradeRow R)) (dirty : Bool) (b : Book R)
      → AreCharged orders b.params.accounted_buy_order_uuids
      → AreBooked trades b.params.accounted_buy_order_uuids
      → (charge_all insert_row t orders trades dirty b).book ≡ b
  unfolding charge_all
  charge_all_idle orders trades dirty b charged booked =
      let start : Run R = record {
        book = b;
        accounted = b.params.accounted_buy_order_uuids;
        pending = pending_by_uuid b.params.pending_buy_orders [];
        dirty = dirty;
      } in
      let d = reorder_map orders [] in
      let s = inherit_all d start in
      let w = inherit_all-Within d start in
      rw
        (
          charge_orders_idle insert_row t orders s
              (AreCharged-Within orders start.accounted s.accounted w charged),
          charge_trades_idle insert_row t trades s
              (AreBooked-Within trades start.accounted s.accounted w booked),
        )
        (inherit_all-book d start)

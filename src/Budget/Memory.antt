-- ===== src/Budget/Memory.antt =====
-- How many uuids a synchronisation adds to those it remembers.
use supabot.Base.{
  Bool, Bool-cases, List, String, [], arith, false, inl, inr, length, length-append, nat_beq, not,
  refl, string_eq, subst, sym, true, ℕ, ◌&&◌, ◌+◌, ◌-◌, ◌==◌, ◌||◌, ◌∷◌, ◌≡◌, ◌≤◌,
}
use supabot.Base.Float.{Float}
use supabot.Base.Dict.{Dict, insert}
use supabot.Budget.Defs.{Book, Entry, OrderRow, Template, TradeRow, last_of, mem_text}
use supabot.Budget.Plan.{is_budget_managed_strategy, is_type}
use supabot.Budget.Setup.{ensure_budget_plan_initialized}
use supabot.Budget.Rows.{
  Run, inherit, inherit_all, is_chargeable, is_new_trade, pending_by_uuid, reorder_map,
}
use supabot.Budget.Events.{
  charge_all, charge_order, charge_orders, charge_trade, charge_trades, sync_rows,
  sync_single_strategy_budget_events,
}
use supabot.Budget.Once.{AreBooked, AreCharged, charge_all-AreCharged}

less_is_zero : (m n : ℕ) → m ≤ n → m - n ≡ 0
less_is_zero m n h = omega arith

last_of_all {ℓ} : {A : Type ℓ} (n : ℕ) (xs : List A) → length xs ≤ n → last_of n xs ≡ xs
last_of_all n xs h = rw (less_is_zero (length xs) n h) refl

length-insert :
    {V : Type 0} (k : String) (v : V) (d : Dict String V) → length (insert k v d) ≤ length d + 1
length-insert k v [] = omega arith
length-insert k v ((j, w) ∷ d) = ground (arith, length-insert k v d)

module _ {R : Type 0} where
  length-reorder_map :
      (os : List (OrderRow R)) (d : Dict String (OrderRow R))
      → length (reorder_map os d) ≤ length d + length os
  length-reorder_map [] d = omega arith
  length-reorder_map (o ∷ os) d = elim (Bool-cases (o.reorder_of == "")) [
    | inl first ↦ rw first (omega (arith, length-reorder_map os d))
    | inr again ↦ rw again (
        omega
          (arith, length-reorder_map os (insert o.reorder_of o d), length-insert o.reorder_of o d))
  ]

  length-inherit :
      (old new : String) (s : Run R) → length (inherit old new s).accounted ≤ length s.accounted + 1
  length-inherit old new s =
      elim (Bool-cases (mem_text old s.accounted && not (mem_text new s.accounted))) [
        | inl taken ↦ rw taken (omega (arith, length-append s.accounted (new ∷ [])))
        | inr left ↦ rw left (omega arith)
      ]

  length-inherit_all :
      (d : Dict String (OrderRow R)) (s : Run R)
      → length (inherit_all d s).accounted ≤ length s.accounted + length d
  length-inherit_all [] s = omega arith
  length-inherit_all ((old, o) ∷ d) s =
      omega (arith, length-inherit_all d (inherit old o.uuid s), length-inherit old o.uuid s)

module _ {R : Type 0} ⦃f : Float R⦄ (insert_row : Entry R → List (Entry R) → List (Entry R))
    (t : Template R) where
  length-charge_order :
      (o : OrderRow R) (s : Run R)
      → length (charge_order insert_row t o s).accounted ≤ length s.accounted + 1
  length-charge_order o s = elim (Bool-cases (is_chargeable o s.accounted)) [
    | inl new ↦ rw new (omega (arith, length-append s.accounted (o.uuid ∷ [])))
    | inr old ↦ rw old (omega arith)
  ]

  length-charge_orders :
      (os : List (OrderRow R)) (s : Run R)
      → length (charge_orders insert_row t os s).accounted ≤ length s.accounted + length os
  unfolding charge_orders
  length-charge_orders [] s = omega arith
  length-charge_orders (o ∷ os) s =
      omega
        (arith, length-charge_orders os (charge_order insert_row t o s), length-charge_order o s)

  length-charge_trade :
      (trade : TradeRow R) (s : Run R)
      → length (charge_trade insert_row t trade s).accounted ≤ length s.accounted + 1
  length-charge_trade trade s = elim (Bool-cases (is_new_trade trade s.accounted)) [
    | inl new ↦ rw new (omega (arith, length-append s.accounted (trade.uuid ∷ [])))
    | inr old ↦ rw old (omega arith)
  ]

  length-charge_trades :
      (trades : List (TradeRow R)) (s : Run R)
      → length (charge_trades insert_row t trades s).accounted ≤ length s.accounted + length trades
  unfolding charge_trades
  length-charge_trades [] s = omega arith
  length-charge_trades (trade ∷ trades) s = omega (
    arith,
    length-charge_trades trades (charge_trade insert_row t trade s),
    length-charge_trade trade s,
  )

  length-charge_all :
      (orders : List (OrderRow R)) (trades : List (TradeRow R)) (dirty : Bool) (b : Book R)
      → length (charge_all insert_row t orders trades dirty b).accounted
        ≤ length b.params.accounted_buy_order_uuids + length orders + length orders + length trades
  unfolding charge_all
  length-charge_all orders trades dirty b =
      let start : Run R = record {
        book = b;
        accounted = b.params.accounted_buy_order_uuids;
        pending = pending_by_uuid b.params.pending_buy_orders [];
        dirty = dirty;
      } in
      let s = inherit_all (reorder_map orders []) start in
      omega (
        arith,
        length-charge_trades trades (charge_orders insert_row t orders s),
        length-charge_orders orders s,
        length-inherit_all (reorder_map orders []) start,
        length-reorder_map orders [],
      )

  -- Everything that was charged is remembered.
  pub sync_rows_remembers :
      (orders : List (OrderRow R)) (trades : List (TradeRow R)) (dirty : Bool) (b : Book R)
      → length b.params.accounted_buy_order_uuids + length orders + length orders + length trades
        ≤ 500
      → let us =
          (sync_rows insert_row t orders trades dirty b).0.params.accounted_buy_order_uuids in
        AreCharged orders us × AreBooked trades us
  unfolding sync_rows
  sync_rows_remembers orders trades dirty b few =
      subst (λ us. AreCharged orders us × AreBooked trades us)
        (sym (
          last_of_all 500 (charge_all insert_row t orders trades dirty b).accounted
            (omega (arith, length-charge_all orders trades dirty b))))
        (charge_all-AreCharged insert_row t orders trades dirty b)

  pub sync_managed :
      (orders : List (OrderRow R)) (trades : List (TradeRow R)) (b : Book R)
      → (is_type t.strategy_type "kospi_top_dca" || not (is_budget_managed_strategy t b.params))
        ≡ false
      → nat_beq t.id 0 ≡ false
      → let ready = ensure_budget_plan_initialized insert_row t true b in
        sync_single_strategy_budget_events insert_row t orders trades b
        ≡ sync_rows insert_row t orders trades ready.1 ready.0
  unfolding sync_single_strategy_budget_events
  sync_managed orders trades b managed has_id = rw (managed, has_id) refl

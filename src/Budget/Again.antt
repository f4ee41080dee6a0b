-- ===== src/Budget/Again.antt =====
-- What a synchronisation charges after a reset of the plan.
use supabot.Base.{
  Bool, List, String, [], arith, false, nat_beq, refl, string_eq, true, ℕ, ◌++◌, ◌+◌, ◌∙◌, ◌∷◌, ◌≡◌,
}
use supabot.Base.Float.{Float}
use supabot.Budget.Defs.{Book, Entry, OrderRow, Template, TradeRow, mem_text}
use supabot.Budget.Plan.{epoch_of, is_budget_managed_strategy, is_type}
use supabot.Budget.Change.{Config, reset_budget_plan}
use supabot.Budget.Setup.{ensure_budget_plan_initialized}
use supabot.Budget.Rows.{is_new_trade}
use supabot.Budget.Events.{charge_all, sync_single_strategy_budget_events}
use supabot.Budget.Once.{AreBooked, charge_all-AreCharged}
use supabot.Budget.Repeat.{sync_rows_keeps}
use supabot.Budget.Setting.{ensure-accounted, ensure-epoch}
use supabot.Budget.Memory.{sync_managed}
use supabot.Budget.Charges.{any_row, charge_all-AllCharged, is_charged}

booked_at :
    {R : Type 0} ⦃f : Float R⦄ (before after : List (TradeRow R)) (trade : TradeRow R)
    (us : List String)
    → AreBooked (before ++ trade ∷ after) us
    → is_new_trade trade us ≡ false
booked_at [] after trade us h = h.0
booked_at (x ∷ before) after trade us h = booked_at before after trade us h.1

new_to_none :
    {R : Type 0} ⦃f : Float R⦄ (trade : TradeRow R) (us : List String)
    → is_new_trade trade [] ≡ true
    → is_new_trade trade us ≡ false
    → mem_text trade.uuid us ≡ true
new_to_none trade us new booked = ground arith

module _ {R : Type 0} ⦃f : Float R⦄ (insert_row : Entry R → List (Entry R) → List (Entry R))
    (kept : (e : Entry R) (l : List (Entry R)) → insert_row e l ≡ e ∷ l) (t : Template R) where
  reset_forgets :
      (c : Config R) (initial : R) (reset_cycle cancel_pending is_reached : Bool)
      (orders : List (OrderRow R)) (b : Book R)
      → let p =
          (reset_budget_plan insert_row t c initial reset_cycle cancel_pending is_reached orders
            b).0.params in
        (p.accounted_buy_order_uuids ≡ [])
        × (epoch_of p ≡ epoch_of b.params + 1)
        × (is_budget_managed_strategy t p ≡ is_budget_managed_strategy t b.params)
  unfolding reset_budget_plan
  reset_forgets c initial true cancel_pending is_reached orders b = (refl, refl, refl)
  reset_forgets c initial false cancel_pending is_reached orders b = (refl, refl, refl)

  -- A book that remembers no purchase is charged each purchase among the trades.
  sync_charges :
      (orders : List (OrderRow R)) (before after : List (TradeRow R)) (trade : TradeRow R)
      (b : Book R) (epoch : ℕ)
      → is_type t.strategy_type "kospi_top_dca" ≡ false
      → is_budget_managed_strategy t b.params ≡ true
      → nat_beq t.id 0 ≡ false
      → is_new_trade trade [] ≡ true
      → b.params.accounted_buy_order_uuids ≡ []
      → epoch_of b.params ≡ epoch
      → is_charged epoch trade.uuid
          (sync_single_strategy_budget_events insert_row t orders
            (before ++ trade ∷ after)
            b).0.ledger
        ≡ true
  sync_charges orders before after trade b epoch single managed has_id new forgotten same =
      let trades = before ++ trade ∷ after in
      let ready = ensure_budget_plan_initialized insert_row t true b in
      let us = (charge_all insert_row t orders trades ready.1 ready.0).accounted in
      let all_charged =
        charge_all-AllCharged insert_row kept t epoch orders trades ready.1 ready.0
          (ensure-accounted insert_row t true b ∙ forgotten)
          (ensure-epoch insert_row t true b ∙ same) in
      rw (sync_managed insert_row t orders trades b (rw (single, managed) refl) has_id) (
        sync_rows_keeps insert_row t (λ l. is_charged epoch trade.uuid l ≡ true)
          (λ e l other h. any_row insert_row kept t epoch e l trade.uuid h) orders trades ready.1
          ready.0
          (all_charged.1 trade.uuid (
            new_to_none trade us new (
              booked_at before after trade us
                (charge_all-AreCharged insert_row t orders trades ready.1 ready.0).1))))

  -- After a reset of the plan of a strategy whose budget is followed trade by trade, the next
  -- synchronisation charges every purchase of the whole history of trades (each with a uuid and a
  -- positive cost) to the new epoch, whatever the old epoch had charged already.
  pub reset_charges_again :
      (c : Config R) (initial : R) (reset_cycle cancel_pending is_reached : Bool)
      (orders : List (OrderRow R)) (before after : List (TradeRow R)) (trade : TradeRow R)
      (b : Book R)
      → is_type t.strategy_type "kospi_top_dca" ≡ false
      → is_budget_managed_strategy t b.params ≡ true
      → nat_beq t.id 0 ≡ false
      → is_new_trade trade [] ≡ true
      → let r =
          reset_budget_plan insert_row t c initial reset_cycle cancel_pending is_reached orders b in
        is_charged
          (epoch_of b.params + 1)
          trade.uuid
          (sync_single_strategy_budget_events insert_row t r.1
            (before ++ trade ∷ after)
            r.0).0.ledger
        ≡ true
  reset_charges_again c initial reset_cycle cancel_pending is_reached orders before after trade b
        single managed has_id new =
      let r =
        reset_budget_plan insert_row t c initial reset_cycle cancel_pending is_reached orders b in
      let fresh = reset_forgets c initial reset_cycle cancel_pending is_reached orders b in
      sync_charges r.1 before after trade r.0 (epoch_of b.params + 1) single (fresh.2 ∙ managed)
        has_id new fresh.0 fresh.1

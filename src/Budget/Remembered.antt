-- ===== src/Budget/Remembered.antt =====
-- A synchronisation that is repeated on the same rows.
use supabot.Base.{
  Bool, Bool-cases, List, ap, arith, false, inl, inr, length, nat_beq, not, refl, string_eq, subst,
  sym, true, ℕ, ◌+◌, ◌||◌, ◌∙◌, ◌∷◌, ◌≡◌, ◌≤◌,
}
use supabot.Base.Float.{Float}
use supabot.Budget.Defs.{Book, Entry, OrderRow, Template, TradeRow}
use supabot.Budget.Plan.{is_budget_managed_strategy, is_type}
use supabot.Budget.Setup.{ensure_budget_plan_initialized}
use supabot.Budget.Events.{sync_rows, sync_single_strategy_budget_events}
use supabot.Budget.Once.{AreBooked, AreCharged, charge_all_idle}
use supabot.Budget.Repeat.{count_spends, ensure_keeps, is_spend, sync_rows_keeps}
use supabot.Budget.Setting.{ensure-accounted}
use supabot.Budget.Memory.{sync_managed, sync_rows_remembers}

module _ {R : Type 0} ⦃f : Float R⦄ (insert_row : Entry R → List (Entry R) → List (Entry R))
    (kept : (e : Entry R) (l : List (Entry R)) → insert_row e l ≡ e ∷ l) (t : Template R) where
  count_other :
      (k : ℕ) (e : Entry R) (l : List (Entry R))
      → is_spend e.entry_type ≡ false
      → count_spends l ≡ k
      → count_spends (insert_row e l) ≡ k
  count_other k e l other h = rw (kept e l, other, h) (omega arith)

  ensure_count :
      (record_initial : Bool) (b : Book R)
      → count_spends (ensure_budget_plan_initialized insert_row t record_initial b).0.ledger
        ≡ count_spends b.ledger
  ensure_count record_initial b =
      ensure_keeps insert_row t (λ l. count_spends l ≡ count_spends b.ledger)
        (count_other (count_spends b.ledger)) record_initial b refl

  -- A synchronisation that finds nothing to charge charges nothing.
  sync_rows_idle :
      (orders : List (OrderRow R)) (trades : List (TradeRow R)) (dirty : Bool) (b : Book R)
      → AreCharged orders b.params.accounted_buy_order_uuids
      → AreBooked trades b.params.accounted_buy_order_uuids
      → count_spends (sync_rows insert_row t orders trades dirty b).0.ledger ≡ count_spends b.ledger
  sync_rows_idle orders trades dirty b charged booked =
      sync_rows_keeps insert_row t (λ l. count_spends l ≡ count_spends b.ledger)
        (count_other (count_spends b.ledger)) orders trades dirty b
        (ap (λ (c : Book R). count_spends c.ledger)
          (charge_all_idle insert_row t orders trades dirty b charged booked))

  sync_idle :
      (orders : List (OrderRow R)) (trades : List (TradeRow R)) (b : Book R)
      → AreCharged orders b.params.accounted_buy_order_uuids
      → AreBooked trades b.params.accounted_buy_order_uuids
      → count_spends (sync_single_strategy_budget_events insert_row t orders trades b).0.ledger
        ≡ count_spends b.ledger
  unfolding sync_single_strategy_budget_events
  sync_idle orders trades b charged booked =
      let ready = ensure_budget_plan_initialized insert_row t true b in
      let same = ensure-accounted insert_row t true b in
      elim (Bool-cases
        (is_type t.strategy_type "kospi_top_dca" || not (is_budget_managed_strategy t b.params))) [
          | inl other ↦ rw other refl
          | inr managed ↦ rw managed (elim (Bool-cases (nat_beq t.id 0)) [
            | inl no_id ↦ rw no_id (ensure_count true b)
            | inr has_id ↦ rw has_id (
                sync_rows_idle orders trades ready.1 ready.0
                  (subst (λ us. AreCharged orders us) (sym same) charged)
                  (subst (λ us. AreBooked trades us) (sym same) booked)
                ∙ ensure_count true b)
          ])
        ]

  sync_unmanaged :
      (orders : List (OrderRow R)) (trades : List (TradeRow R)) (b : Book R)
      → (is_type t.strategy_type "kospi_top_dca" || not (is_budget_managed_strategy t b.params))
        ≡ true
      → sync_single_strategy_budget_events insert_row t orders trades b ≡ (b, false)
  unfolding sync_single_strategy_budget_events
  sync_unmanaged orders trades b other = rw other refl

  sync_no_id :
      (orders : List (OrderRow R)) (trades : List (TradeRow R)) (b : Book R)
      → nat_beq t.id 0 ≡ true
      → count_spends (sync_single_strategy_budget_events insert_row t orders trades b).0.ledger
        ≡ count_spends b.ledger
  unfolding sync_single_strategy_budget_events
  sync_no_id orders trades b no_id =
      elim (Bool-cases
        (is_type t.strategy_type "kospi_top_dca" || not (is_budget_managed_strategy t b.params))) [
          | inl other ↦ rw other refl
          | inr managed ↦ rw (managed, no_id) (ensure_count true b)
        ]

  -- As long as no more than 500 uuids have to be remembered and the table keeps each row, a second
  -- synchronisation on the same orders and trades charges no purchase: the ledger has as many
  -- charges after it as before.
  pub sync_charges_once :
      (orders : List (OrderRow R)) (trades : List (TradeRow R)) (b : Book R)
      → length b.params.accounted_buy_order_uuids + length orders + length orders + length trades
        ≤ 500
      → let b' = (sync_single_strategy_budget_events insert_row t orders trades b).0 in
        count_spends (sync_single_strategy_budget_events insert_row t orders trades b').0.ledger
        ≡ count_spends b'.ledger
  sync_charges_once orders trades b few =
      let ready = ensure_budget_plan_initialized insert_row t true b in
      let remembered =
        sync_rows_remembers insert_row t orders trades ready.1 ready.0
          (rw (ensure-accounted insert_row t true b) few) in
      elim (Bool-cases
        (is_type t.strategy_type "kospi_top_dca" || not (is_budget_managed_strategy t b.params))) [
          | inl other ↦
              rw (sync_unmanaged orders trades b other, sync_unmanaged orders trades b other) refl
          | inr managed ↦ elim (Bool-cases (nat_beq t.id 0)) [
            | inl no_id ↦ sync_no_id orders trades _ no_id
            | inr has_id ↦
                rw (sync_managed insert_row t orders trades b managed has_id)
                  (sync_idle orders trades _ remembered.0 remembered.1)
          ]
        ]

-- ===== src/Budget/Setting.antt =====
-- What the first set-up of a plan leaves alone.
use supabot.Base.{Bool, Bool-cases, List, inl, inr, not, refl, some, string_eq, ◌&&◌, ◌∙◌, ◌≡◌}
use supabot.Base.Float.{Float}
use supabot.Budget.Defs.{Book, Entry, Params, Template}
use supabot.Budget.Plan.{epoch_of, is_budget_managed_strategy, is_type, mode_of, revision_of}
use supabot.Budget.Setup.{
  ensure_budget_plan_initialized, is_some, lacks_monthly, set_monthly, set_per_order, set_plan,
}

module _ {R : Type 0} ⦃f : Float R⦄ (t : Template R) where
  set_monthly-accounted :
      (p : Params R) → (set_monthly t p).accounted_buy_order_uuids ≡ p.accounted_buy_order_uuids
  set_monthly-accounted p = elim (Bool-cases (lacks_monthly p)) [
    | inl lacks ↦ rw lacks refl
    | inr has ↦ rw has refl
  ]

  set_per_order-accounted :
      (p : Params R) → (set_per_order t p).accounted_buy_order_uuids ≡ p.accounted_buy_order_uuids
  set_per_order-accounted p =
      elim (Bool-cases (is_type t.strategy_type "dca" && not (is_some p.per_order_budget))) [
        | inl lacks ↦ rw lacks refl
        | inr has ↦ rw has refl
      ]

  set_monthly-epoch : (p : Params R) → epoch_of (set_monthly t p) ≡ epoch_of p
  set_monthly-epoch p = elim (Bool-cases (lacks_monthly p)) [
    | inl lacks ↦ rw lacks refl
    | inr has ↦ rw has refl
  ]

  set_per_order-epoch : (p : Params R) → epoch_of (set_per_order t p) ≡ epoch_of p
  set_per_order-epoch p =
      elim (Bool-cases (is_type t.strategy_type "dca" && not (is_some p.per_order_budget))) [
        | inl lacks ↦ rw lacks refl
        | inr has ↦ rw has refl
      ]

  -- The fields that a plan starts with.
  abbrev started : Params R → Params R
  started p = record p {
    budget_epoch = some (epoch_of p);
    plan_revision_no = some (revision_of p);
    budget_mode = some (mode_of t p);
  }

  set_plan-accounted :
      (p : Params R) → (set_plan t p).accounted_buy_order_uuids ≡ p.accounted_buy_order_uuids
  set_plan-accounted p =
      set_monthly-accounted (set_per_order t (started p)) ∙ set_per_order-accounted (started p)

  set_plan-epoch : (p : Params R) → epoch_of (set_plan t p) ≡ epoch_of p
  set_plan-epoch p =
      set_monthly-epoch (set_per_order t (started p)) ∙ set_per_order-epoch (started p)

module _ {R : Type 0} ⦃f : Float R⦄ (insert_row : Entry R → List (Entry R) → List (Entry R))
    (t : Template R) where
  pub ensure-accounted :
      (record_initial : Bool) (b : Book R)
      → (ensure_budget_plan_initialized insert_row t record_initial
          b).0.params.accounted_buy_order_uuids
        ≡ b.params.accounted_buy_order_uuids
  unfolding ensure_budget_plan_initialized
  ensure-accounted record_initial b = elim (Bool-cases (is_budget_managed_strategy t b.params)) [
    | inl managed ↦ rw managed (set_plan-accounted t b.params)
    | inr other ↦ rw other refl
  ]

  pub ensure-epoch :
      (record_initial : Bool) (b : Book R)
      → epoch_of (ensure_budget_plan_initialized insert_row t record_initial b).0.params
        ≡ epoch_of b.params
  unfolding ensure_budget_plan_initialized
  ensure-epoch record_initial b = elim (Bool-cases (is_budget_managed_strategy t b.params)) [
    | inl managed ↦ rw managed (set_plan-epoch t b.params)
    | inr other ↦ rw other refl
  ]

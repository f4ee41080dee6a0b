-- ===== src/Budget/Setup.antt =====
-- `ensure_budget_plan_initialized`: the fields of a plan that a template lacks.
use supabot.Base.{
  Bool, List, Option, [], false, if◌then◌else◌, nat_beq, none, not, some, string_eq, true, ◌&&◌,
  ◌==◌, ◌||◌, ◌∷◌,
}
use supabot.Base.Float.{Float, is_zero}
use supabot.Budget.Defs.{Book, Entry, Params, Revision, Template, initial_credit, value_or}
use supabot.Budget.Plan.{
  carryover_of, daily_fixed_of, default_sell_proceeds_mode_for_strategy, epoch_of,
  is_budget_managed_strategy, is_type, mode_of, revision_of, spent_of,
}
use supabot.Budget.Ledger.{entry_of}

abbrev pub is_some {ℓ} : {A : Type ℓ} → Option A → Bool
is_some none = false
is_some (some a) = true

module _ {R : Type 0} ⦃f : Float R⦄ where
  -- `float(x or 0.0)`
  abbrev pub amount_or_zero : Option R → R
  amount_or_zero x = value_or x (f.of_ℕ 0)

  -- The key is absent, or its value is not positive.
  abbrev pub lacks_monthly : Params R → Bool
  lacks_monthly p = f.le (amount_or_zero p.monthly_budget) (f.of_ℕ 0)

  abbrev pub runs_of : Template R → R
  runs_of t =
      let count = value_or t.count 0 in
      f.mul (amount_or_zero t.budget) (f.of_ℕ (if nat_beq count 0 then 20 else count))

  abbrev pub dca_monthly : Template R → R
  dca_monthly t =
      let total = runs_of t in if f.lt (f.of_ℕ 0) total then total else amount_or_zero t.budget

  abbrev pub other_monthly : Template R → R
  other_monthly t =
      if f.lt (f.of_ℕ 0) (amount_or_zero t.budget)
      then amount_or_zero t.budget
      else f.of_ℕ 3_000_000

  abbrev pub set_per_order : Template R → Params R → Params R
  set_per_order t p =
      if is_type t.strategy_type "dca" && not (is_some p.per_order_budget)
      then record p { per_order_budget = some (amount_or_zero t.budget) }
      else p

  abbrev pub set_monthly : Template R → Params R → Params R
  set_monthly t p =
      if lacks_monthly p
      then record p {
        monthly_budget =
            some (if is_type t.strategy_type "dca" then dca_monthly t else other_monthly t);
      }
      else p

  -- `float(params.get("per_order_budget") or 150000.0)`
  abbrev pub fixed_default : Params R → R
  fixed_default p =
      let amount = amount_or_zero p.per_order_budget in
      if is_zero amount then f.of_ℕ 150_000 else amount

  abbrev pub first_revision : Params R → Revision R
  first_revision p = record {
    revision_no = revision_of p;
    epoch = epoch_of p;
    mode = value_or p.budget_mode "";
    monthly = amount_or_zero p.monthly_budget;
    daily_fixed = daily_fixed_of p;
    daily_allowance_est = none;
    carryover_at_change = carryover_of p;
    monthly_spent_at_change = spent_of p;
    remaining_days_at_change = none;
  }

  -- Every field but the balance.
  abbrev pub set_plan : Template R → Params R → Params R
  set_plan t params =
      let p = record params {
        budget_epoch = some (epoch_of params);
        plan_revision_no = some (revision_of params);
        budget_mode = some (mode_of t params);
      } in
      let q = set_monthly t (set_per_order t p) in
      record q {
        daily_fixed_budget = some (value_or q.daily_fixed_budget (fixed_default q));
        sell_proceeds_mode = some (
            value_or q.sell_proceeds_mode
              (default_sell_proceeds_mode_for_strategy t.strategy_type));
        monthly_spent = some (spent_of q);
      }

  abbrev pub first_balance : Params R → R
  first_balance p =
      if value_or p.budget_mode "" == "total" then amount_or_zero p.monthly_budget else f.of_ℕ 0

  abbrev pub set_balance : Params R → Params R
  set_balance p = record p {
    carryover_budget = some (value_or p.carryover_budget (first_balance p));
  }

  abbrev pub set_revisions : Params R → Params R
  set_revisions p = record p {
    budget_plan_revisions = some (value_or p.budget_plan_revisions (first_revision p ∷ []));
  }

  -- A field is set that was not.
  abbrev pub is_changed : Template R → Params R → Bool
  is_changed t p =
      not (is_some p.budget_epoch && is_some p.plan_revision_no && is_some p.budget_mode)
      || (value_or p.budget_mode "" == "" || lacks_monthly p)
      || (is_type t.strategy_type "dca" && not (is_some p.per_order_budget)
          || not (
              is_some p.daily_fixed_budget
              && is_some p.sell_proceeds_mode
              && is_some p.monthly_spent))
      || not (is_some p.carryover_budget && is_some p.budget_plan_revisions)

  abbrev pub is_first_credit : Params R → Params R → Bool
  is_first_credit old p =
      not (is_some old.carryover_budget)
      && (value_or p.budget_mode "" == "total" && f.lt (f.of_ℕ 0) (carryover_of p))

module _ {R : Type 0} ⦃f : Float R⦄ (insert : Entry R → List (Entry R) → List (Entry R)) where
  -- Whether anything changed is the second result; what is stored is left to the caller.
  unfoldable pub ensure_budget_plan_initialized : Template R → Bool → Book R → Book R × Bool
  ensure_budget_plan_initialized t record_initial b =
      let p = set_revisions (set_balance (set_plan t b.params)) in
      let amount = carryover_of p in
      let entry =
        entry_of t (epoch_of p) (revision_of p) initial_credit amount amount (f.of_ℕ 0) amount in
      let is_recorded =
        is_first_credit b.params p
        && (record_initial && (not (nat_beq t.id 0) && not (t.user_id == ""))) in
      if is_budget_managed_strategy t b.params
      then (
        record { params = p; ledger = (if is_recorded then insert entry b.ledger else b.ledger) },
        is_changed t b.params,
      )
      else (b, false)

-- ===== src/Budget/Change.antt =====
-- The operations that change a plan: a new revision, a new epoch, and the first set-up.
-- The keys of `new_plan_config` and of `new_config`.
use supabot.Base.{
  Bool, List, Option, String, [], if◌then◌else◌, map, none, some, string_eq, ℕ, ◌&&◌, ◌++◌, ◌+◌,
  ◌==◌, ◌∷◌,
}
use supabot.Base.Float.{Float, fabs, fmin, is_zero}
use supabot.Budget.Defs.{
  Book, Entry, EntryType, OrderRow, Params, Revision, Template, last_of, mem_text, plan_cap_adjust,
  plan_change_diff, reset, value_or,
}
use supabot.Budget.Plan.{
  carryover_of, compute_daily_allowance, daily_fixed_of, default_budget_mode_for_strategy, epoch_of,
  mode_of, plan_budget, positive, revision_of, spent_of,
}
use supabot.Budget.Ledger.{entry_of, is_credited, remaining_of}

pub record Config (R : Type 0) : Type 0 where
  pub budget_mode : Option String
  pub monthly_budget : Option R
  pub daily_fixed_budget : Option R
  pub sell_proceeds_mode : Option String
  pub per_order_budget : Option R

abbrev pub some_or {ℓ} : {A : Type ℓ} → Option A → Option A → Option A
some_or none old = old
some_or (some a) old = some a

-- The plan before and after a change.
pub record Plans (R : Type 0) : Type 0 where
  pub old_mode : String
  pub mode : String
  pub old_monthly : R
  pub monthly : R
  pub old_fixed : R
  pub fixed : R
  pub spent : R
  pub days : ℕ
  pub epoch : ℕ
  pub revision : ℕ

module _ {R : Type 0} where
  abbrev pub is_open_bid : OrderRow R → Bool
  is_open_bid o =
      o.side == "bid"
      && mem_text o.status ("wait" ∷ "reserved" ∷ "partial" ∷ "pending_reorder" ∷ [])

  abbrev pub request_cancel : OrderRow R → OrderRow R
  request_cancel o = if is_open_bid o then record o { status = "cancel_requested" } else o

  abbrev pub fresh_cycle : Bool → Params R → Params R
  fresh_cycle reset_cycle p =
      if reset_cycle
      then record p { cycle_no = some 1; current_cycle_bought = []; skipped_untradable = [] }
      else p

module _ {R : Type 0} ⦃f : Float R⦄ where
  abbrev pub plans_of : Template R → Config R → ℕ → Params R → Plans R
  plans_of t c days p = record {
    old_mode = mode_of t p;
    mode = value_or c.budget_mode (mode_of t p);
    old_monthly = plan_budget t p;
    monthly = value_or c.monthly_budget (plan_budget t p);
    old_fixed = daily_fixed_of p;
    fixed = value_or c.daily_fixed_budget (daily_fixed_of p);
    spent = spent_of p;
    days = days;
    epoch = epoch_of p;
    revision = revision_of p + 1;
  }

  -- The row of a change, with the balance after it.
  abbrev pub change_entry : Template R → Plans R → EntryType → R → R → Entry R
  change_entry t s type delta balance =
      entry_of t s.epoch s.revision type delta balance s.spent (remaining_of s.monthly s.spent)

  abbrev pub allowance_by : String → R → R → Plans R → R → R
  allowance_by mode monthly fixed s carryover =
      compute_daily_allowance mode monthly fixed s.spent carryover s.days

  abbrev pub add_revision : Revision R → Option (List (Revision R)) → Option (List (Revision R))
  add_revision r old = some (last_of 50 (value_or old [] ++ r ∷ []))

module _ {R : Type 0} ⦃f : Float R⦄ (insert : Entry R → List (Entry R) → List (Entry R)) where
  -- The balance and the ledger, through the stages of a change.
  abbrev pub pool_change : Template R → Plans R → R × List (Entry R) → R × List (Entry R)
  pool_change t s (carryover, ledger) =
      let diff = f.sub s.monthly s.old_monthly in
      let raised = f.add carryover diff in
      let cut = fmin carryover (fabs diff) in
      let lowered = positive (f.sub carryover cut) in
      if f.lt (f.of_ℕ 0) diff
      then (raised, insert (change_entry t s plan_change_diff diff raised) ledger)
      else (if f.lt diff (f.of_ℕ 0) && f.lt (f.of_ℕ 0) carryover
          then (if f.lt (f.of_ℕ 0) cut
              then (
                lowered,
                insert (change_entry t s plan_cap_adjust (f.sub (f.of_ℕ 0) cut) lowered) ledger,
              )
              else (lowered, ledger))
          else (carryover, ledger))

  abbrev pub pool_switch : Template R → Plans R → R × List (Entry R) → R × List (Entry R)
  pool_switch t s (carryover, ledger) =
      let free = positive (f.sub (f.sub s.monthly s.spent) carryover) in
      let raised = f.add carryover free in
      if f.lt (f.of_ℕ 0) free
      then (raised, insert (change_entry t s plan_change_diff free raised) ledger)
      else (carryover, ledger)

  -- The difference of the allowances of today, both computed from the balance before.
  abbrev pub today_change : Template R → Plans R → R × List (Entry R) → R × List (Entry R)
  today_change t s (carryover, ledger) =
      let diff =
        f.sub (allowance_by s.mode s.monthly s.fixed s carryover)
          (allowance_by s.old_mode s.old_monthly s.old_fixed s carryover) in
      let type = (if f.lt (f.of_ℕ 0) diff then plan_change_diff else plan_cap_adjust) in
      let changed = positive (f.add carryover diff) in
      if is_zero diff
      then (carryover, ledger)
      else (changed, insert (change_entry t s type diff changed) ledger)

  abbrev pub freeze : Template R → Plans R → R × List (Entry R) → R × List (Entry R)
  freeze t s (carryover, ledger) =
      let entry =
        entry_of t s.epoch s.revision plan_cap_adjust (f.sub (f.of_ℕ 0) carryover) (f.of_ℕ 0)
          s.spent (f.of_ℕ 0) in
      if s.mode == "monthly" && f.le s.monthly s.spent
      then (if f.lt (f.of_ℕ 0) carryover
          then (f.of_ℕ 0, insert entry ledger)
          else (carryover, ledger))
      else (carryover, ledger)

  abbrev pub rebalance :
      Template R → Plans R → Bool → Bool → R × List (Entry R) → R × List (Entry R)
  rebalance t s apply_today is_credited_today r =
      if s.mode == "total"
      then (if s.old_mode == "total"
          then pool_change t s r
          else (if apply_today then pool_switch t s r else r))
      else freeze t s (if apply_today && is_credited_today then today_change t s r else r)

  -- `days` is the number of trading days left today.
  unfoldable pub apply_plan_change : Template R → Config R → Bool → String → ℕ → Book R → Book R
  unfolding compute_daily_allowance
  apply_plan_change t c apply_today today days b =
      let p = b.params in
      let s = plans_of t c days p in
      let estimate = allowance_by s.mode s.monthly s.fixed s (carryover_of p) in
      let (carryover, ledger) =
        rebalance t s apply_today (is_credited p.allowance_credited_date today)
          (carryover_of p, b.ledger) in
      let revision : Revision R = record {
        revision_no = s.revision;
        epoch = s.epoch;
        mode = s.mode;
        monthly = s.monthly;
        daily_fixed = s.fixed;
        daily_allowance_est = some estimate;
        carryover_at_change = carryover;
        monthly_spent_at_change = s.spent;
        remaining_days_at_change = some days;
      } in
      record {
        params = record p {
          sell_proceeds_mode = some_or c.sell_proceeds_mode p.sell_proceeds_mode;
          per_order_budget = some_or c.per_order_budget p.per_order_budget;
          plan_revision_no = some s.revision;
          budget_mode = some s.mode;
          monthly_budget = some s.monthly;
          daily_fixed_budget = some s.fixed;
          carryover_budget = some carryover;
          budget_plan_revisions = add_revision revision p.budget_plan_revisions;
        };
        ledger = ledger;
      }

  -- A new epoch. The rows of `orders` are those of the template; `is_reached` says whether the
  -- database could be asked to cancel the open purchases, and a failure is only logged.
  unfoldable pub reset_budget_plan :
      Template R
      → Config R
      → R
      → Bool
      → Bool
      → Bool
      → List (OrderRow R)
      → Book R
      → Book R × List (OrderRow R)
  reset_budget_plan t c initial reset_cycle cancel_pending is_reached orders b =
      let p = b.params in
      let epoch = epoch_of p + 1 in
      let mode =
        value_or c.budget_mode
          (value_or p.budget_mode (default_budget_mode_for_strategy t.strategy_type)) in
      let monthly = value_or c.monthly_budget (plan_budget t p) in
      let fixed = value_or c.daily_fixed_budget (daily_fixed_of p) in
      let revision : Revision R = record {
        revision_no = 1;
        epoch = epoch;
        mode = mode;
        monthly = monthly;
        daily_fixed = fixed;
        daily_allowance_est = none;
        carryover_at_change = initial;
        monthly_spent_at_change = f.of_ℕ 0;
        remaining_days_at_change = none;
      } in
      (
        record {
          params = fresh_cycle reset_cycle (record p {
            budget_epoch = some epoch;
            plan_revision_no = some 1;
            budget_mode = some mode;
            monthly_budget = some monthly;
            daily_fixed_budget = some fixed;
            carryover_budget = some initial;
            monthly_spent = some (f.of_ℕ 0);
            allowance_credited_date = none;
            accounted_buy_order_uuids = [];
            recycled_sell_uuids = [];
            pending_buy_orders = [];
            pending_sell_orders = [];
            budget_plan_revisions = add_revision revision p.budget_plan_revisions;
          });
          ledger = insert (entry_of t epoch 1 reset initial initial (f.of_ℕ 0) monthly) b.ledger;
        },
        if cancel_pending && is_reached then map request_cancel orders else orders,
      )

-- ===== src/Budget/Examples.antt =====
-- Tests of the budget on whole amounts, and the theorems at concrete books.
use supabot.Base.{
  List, [], arith, false, none, refl, some, string_eq, true, ℕ, ◌%◌, ◌*◌, ◌+◌, ◌-◌, ◌/◌, ◌∷◌, ◌≡◌,
}
use supabot.Base.Float.{int_float}
use supabot.Base.Int.{ltb_ℤ, pos, ℤ, ◌*ℤ◌, ◌+ℤ◌, ◌-ℤ◌}
use supabot.Base.Text.{codes}
use supabot.Budget.Defs.{Book, Entry, Params, Template, TradeRow}
use supabot.Budget.Plan.{Dates, calculate_remaining_trading_days, carryover_of}
use supabot.Budget.Ledger.{credit_daily_allowance, manual_topup, spend_for_buy}
use supabot.Budget.Change.{Config, reset_budget_plan}
use supabot.Budget.Events.{sync_single_strategy_budget_events}
use supabot.Budget.Health.{check_exchange_budget_health, shortage}
use supabot.Budget.Audit.{
  AllCovered, IsBalanced, Op, add_money, balance_of, buy, run_op, run_ops, start_over,
}
use supabot.Budget.Identity.{overdrawn_purchase, run_ops-IsBalanced}
use supabot.Budget.Credit.{IsWithin, credit-IsWithin}
use supabot.Budget.Solvent.{Deposits, Means, health-Means}
use supabot.Budget.Repeat.{count_spends}
use supabot.Budget.Remembered.{sync_charges_once}
use supabot.Budget.Charges.{is_charged}
use supabot.Budget.Again.{reset_charges_again}

abbrev pub add_entry : Entry ℤ → List (Entry ℤ) → List (Entry ℤ)
add_entry e l = e ∷ l

-- Months of 30 days, counted from a Monday.
abbrev dates : Dates ℕ
dates = record {
  parse = λ text. none;
  today = 24;
  year = λ d. d / 360;
  month = λ d. d % 360 / 30 + 1;
  day = λ d. d % 30 + 1;
  on_day = λ day d. d / 30 * 30 + (day - 1);
  on_date = λ y m day d. y * 360 + (m - 1) * 30 + (day - 1);
  day_before = λ d. d - 1;
  weekday = λ d. d % 7;
}

abbrev pub grid : Template ℤ
grid = record {
  id = 7;
  user_id = "ann";
  strategy_type = "rsitrade";
  exchange = "upbit";
  ticker = "KRW-BTC";
  budget = some (pos 100_000);
  count = none;
}

abbrev monthly_plan : Params ℤ
monthly_plan = record {
  budget_epoch = some 1;
  plan_revision_no = some 1;
  budget_mode = some "monthly";
  monthly_budget = some (pos 90_000);
  daily_fixed_budget = some (pos 5_000);
  per_order_budget = none;
  monthly_spent = some (pos 30_000);
  carryover_budget = some (pos 10_000);
  sell_proceeds_mode = some "recycle_to_budget";
  allowance_credited_date = some "2026-01-04";
  current_month = some (codes "2026-01");
  budget_plan_revisions = some [];
  accounted_buy_order_uuids = [];
  recycled_sell_uuids = [];
  pending_buy_orders = [];
  pending_sell_orders = [];
  cycle_no = some 1;
  current_cycle_bought = [];
  skipped_untradable = [];
  last_group_no = none;
  side = none;
  amount_type = none;
  strategy_status = none;
  schedule_enabled = true;
  is_archived = false;
}

abbrev pub book : Book ℤ
book = record { params = monthly_plan; ledger = [] }

-- Four trading days of the month are left: a quarter of what is neither spent nor carried over.
days_left : calculate_remaining_trading_days dates "2026-01-05" ≡ 4
unfolding calculate_remaining_trading_days
days_left = refl

credited :
    (credit_daily_allowance add_entry dates "2026-01-05" grid none none none book).0 ≡ pos 12_500
unfolding credit_daily_allowance ◌-ℤ◌
credited = refl

abbrev purchase : TradeRow ℤ
purchase = record {
  uuid = "u1";
  ticker = "KRW-BTC";
  side = "bid";
  price = pos 1_000;
  volume = pos 3;
  fee_amount = pos 2;
  group_no = some 4;
}

abbrev empty_config : Config ℤ
empty_config = record {
  budget_mode = none;
  monthly_budget = none;
  daily_fixed_budget = none;
  sell_proceeds_mode = none;
  per_order_budget = none;
}

abbrev some_days : List Op
some_days =
    add_money (pos 5_000)
    ∷ buy (pos 12_000) "KRW-BTC" 4 "u1"
    ∷ start_over empty_config (pos 50_000) true
    ∷ []

some_days-AllCovered : AllCovered add_entry dates "2026-01-05" grid some_days book
unfolding run_op manual_topup ◌+ℤ◌
some_days-AllCovered = (tt, (omega arith, (tt, tt)))

run_ops-IsBalanced_example :
    IsBalanced
      (pos 10_000)
      (carryover_of (run_ops add_entry dates "2026-01-05" grid some_days book).params)
      (run_ops add_entry dates "2026-01-05" grid some_days book).ledger
run_ops-IsBalanced_example =
    run_ops-IsBalanced (pos 10_000) add_entry (λ e l. refl) dates "2026-01-05" grid some_days book
      some_days-AllCovered (refl, tt)

overdrawn_purchase_example :
    let b' = (spend_for_buy add_entry grid (pos 12_000) "KRW-BTC" 4 "u1" none none true book).1 in
    (carryover_of b'.params ≡ pos 0) × (ltb_ℤ (balance_of (pos 10_000) b'.ledger) (pos 0) ≡ true)
overdrawn_purchase_example =
    overdrawn_purchase (pos 10_000) add_entry (λ e l. refl) grid (pos 12_000) "KRW-BTC" 4 "u1" book
      (refl, tt) refl

credit-IsWithin_example :
    let r = credit_daily_allowance add_entry dates "2026-01-05" grid none none none book in
    IsWithin (pos 90_000) monthly_plan r.0 r.1.params
credit-IsWithin_example = credit-IsWithin add_entry dates "2026-01-05" grid none none none book refl

health-Means_example :
    let h =
      check_exchange_budget_health "upbit" ((grid, monthly_plan) ∷ []) (some (pos 15_000)) true 4 in
    Means h.health_grade h.daily_required_krw h.monthly_remaining_required_krw (some (pos 15_000))
    × Deposits (some (pos 15_000)) h
health-Means_example = health-Means "upbit" ((grid, monthly_plan) ∷ []) (some (pos 15_000)) true 4

is_short :
    (check_exchange_budget_health "upbit"
      ((grid, monthly_plan) ∷ [])
      (some (pos 15_000))
      true
      4).health_grade
    ≡ shortage
unfolding check_exchange_budget_health ◌-ℤ◌ ◌+ℤ◌
is_short = refl

sync_charges_once_example :
    let b' = (sync_single_strategy_budget_events add_entry grid [] (purchase ∷ []) book).0 in
    count_spends (sync_single_strategy_budget_events add_entry grid [] (purchase ∷ []) b').0.ledger
    ≡ count_spends b'.ledger
sync_charges_once_example =
    sync_charges_once add_entry (λ e l. refl) grid [] (purchase ∷ []) book (omega arith)

reset_charges_again_example :
    let r = reset_budget_plan add_entry grid empty_config (pos 50_000) true true true [] book in
    is_charged 2 "u1"
      (sync_single_strategy_budget_events add_entry grid r.1 (purchase ∷ []) r.0).0.ledger
    ≡ true
reset_charges_again_example =
    reset_charges_again add_entry (λ e l. refl) grid empty_config (pos 50_000) true true true [] []
      [] purchase book refl refl refl (unfold ◌*ℤ◌ in refl)

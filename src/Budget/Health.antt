-- ===== src/Budget/Health.antt =====
-- `check_exchange_budget_health`: what the strategies of an exchange need against its cash.
use supabot.Base.{
  Bool, List, Option, String, [], filter, if◌then◌else◌, map, none, not, some, string_eq, ℕ, ◌&&◌,
  ◌==◌, ◌∷◌,
}
use supabot.Base.Float.{Float}
use supabot.Base.Text.{same_codes, upper}
use supabot.Budget.Defs.{Params, Template, value_or}
use supabot.Budget.Plan.{
  compute_daily_allowance, daily_fixed_of, is_budget_managed_strategy, mode_of, plan_budget,
  positive, spent_of,
}

pub data Grade : Type 0 where
  unknown shortage warning healthy : Grade

-- The need of a strategy: today, and for the rest of the month.
pub record Need (R : Type 0) : Type 0 where
  pub template_id : ℕ
  pub daily : R
  pub monthly : R

-- The report, without the names and the message.
pub record Health (R : Type 0) : Type 0 where
  pub health_grade : Grade
  pub daily_required_krw : R
  pub monthly_remaining_required_krw : R
  pub daily_deposit_needed_krw : R
  pub monthly_deposit_needed_krw : R
  pub active_templates : List (Need R)
  pub holding_templates : List (Need R)
  pub holding_daily_required_krw : R

module _ {R : Type 0} where
  -- The templates of the exchange that have a budget, by whether they run.
  abbrev pub is_counted : String → Template R × Params R → Bool
  is_counted ex (t, p) =
      same_codes (upper t.exchange) (upper ex)
      && (not p.is_archived && is_budget_managed_strategy t p)

  abbrev pub is_running : Template R × Params R → Bool
  is_running (t, p) = value_or p.strategy_status "active" == "active" && p.schedule_enabled

module _ {R : Type 0} ⦃f : Float R⦄ where
  abbrev pub balance_or_pool : Template R → Params R → R
  balance_or_pool t p =
      value_or p.carryover_budget (if mode_of t p == "total" then plan_budget t p else f.of_ℕ 0)

  abbrev pub need_of : ℕ → Template R × Params R → Need R
  need_of days (t, p) =
      let balance = balance_or_pool t p in
      let estimate =
        compute_daily_allowance (mode_of t p) (plan_budget t p) (daily_fixed_of p) (spent_of p)
          balance days in
      let free =
        (if mode_of t p == "total"
          then f.of_ℕ 0
          else positive (f.sub (f.sub (plan_budget t p) (spent_of p)) balance)) in
      record { template_id = t.id; daily = f.add balance estimate; monthly = f.add balance free }

  abbrev pub holding_of : Template R × Params R → Need R
  holding_of (t, p) = record {
    template_id = t.id;
    daily = balance_or_pool t p;
    monthly = balance_or_pool t p;
  }

  abbrev pub sum_daily : R → List (Need R) → R
  sum_daily sum [] = sum
  sum_daily sum (n ∷ ns) = sum_daily (f.add sum n.daily) ns

  abbrev pub sum_monthly : R → List (Need R) → R
  sum_monthly sum [] = sum
  sum_monthly sum (n ∷ ns) = sum_monthly (f.add sum n.monthly) ns

  -- `max(0.0, round(need) - round(cash))`
  abbrev pub shortfall : R → R → R
  shortfall need cash = positive (f.sub (f.round need) (f.round cash))

  abbrev pub grade_of : R → R → Grade
  grade_of daily monthly =
      if f.le (f.of_ℕ 1) daily
      then shortage
      else (if f.le (f.of_ℕ 1) monthly then warning else healthy)

  -- No cash, or a balance that could not be had, is `none`.
  abbrev pub graded : R → R → Option R → Grade × R × R
  graded daily monthly none = (unknown, f.of_ℕ 0, f.of_ℕ 0)
  graded daily monthly (some cash) =
      let short = shortfall daily cash in
      let later = shortfall monthly cash in (grade_of short later, short, later)

  unfoldable pub check_exchange_budget_health :
      String → List (Template R × Params R) → Option R → Bool → ℕ → Health R
  unfolding compute_daily_allowance
  check_exchange_budget_health ex templates cash is_available days =
      let counted = filter (is_counted ex) templates in
      let active = map (need_of days) (filter is_running counted) in
      let holding = map holding_of (filter (λ tp. not (is_running tp)) counted) in
      let daily = sum_daily (f.of_ℕ 0) active in
      let monthly = sum_monthly (f.of_ℕ 0) active in
      let (grade, short, later) = graded daily monthly (if is_available then cash else none) in
      record {
        health_grade = grade;
        daily_required_krw = daily;
        monthly_remaining_required_krw = monthly;
        daily_deposit_needed_krw = short;
        monthly_deposit_needed_krw = later;
        active_templates = active;
        holding_templates = holding;
        holding_daily_required_krw = sum_daily (f.of_ℕ 0) holding;
      }

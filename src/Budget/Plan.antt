-- ===== src/Budget/Plan.antt =====
-- The rules of a plan: which strategies have one, the defaults, and the allowance of a day.
-- `str(template.get("strategy_type") or "grid").lower()`
use supabot.Base.{
  Bool, List, Option, String, [], any, false, if◌then◌else◌, ltb, max, nat_beq, not, string_eq, suc,
  true, zero, ℕ, ◌+◌, ◌-◌, ◌==◌, ◌||◌, ◌∷◌,
}
use supabot.Base.Float.{Float, fmax, fmin}
use supabot.Base.Text.{codes, lower, same_codes}
use supabot.Budget.Defs.{Params, Template, set_text, text_or, value_or}

abbrev pub stype_of : String → List ℕ
stype_of t = lower (text_or t "grid")

abbrev pub is_type : String → String → Bool
is_type t name = same_codes (stype_of t) (codes name)

abbrev pub default_budget_mode_for_strategy : String → String
default_budget_mode_for_strategy t = if is_type t "kospi_top_dca" then "monthly" else "total"

abbrev pub default_sell_proceeds_mode_for_strategy : String → String
default_sell_proceeds_mode_for_strategy t =
    if is_type t "rsitrade" || is_type t "rsi" then "recycle_to_budget" else "keep_cash"

abbrev is_lower_in : String → List String → Bool
is_lower_in t names = any (λ name. same_codes (lower t) (codes name)) names

module _ {R : Type 0} where
  abbrev pub is_budget_managed_strategy : Template R → Params R → Bool
  is_budget_managed_strategy t p =
      if is_type t.strategy_type "sgrid" || is_type t.strategy_type "sdca"
      then false
      else (if is_type t.strategy_type "dca"
          then (if is_lower_in (set_text p.side "bid") ("ask" ∷ "sell" ∷ "sdca" ∷ [])
              then false
              else not (is_lower_in (set_text p.amount_type "budget") ("volume" ∷ [])))
          else true)

  abbrev pub mode_of : Template R → Params R → String
  mode_of t p = set_text p.budget_mode (default_budget_mode_for_strategy t.strategy_type)

  abbrev pub epoch_of : Params R → ℕ
  epoch_of p = value_or p.budget_epoch 1

  abbrev pub revision_of : Params R → ℕ
  revision_of p = value_or p.plan_revision_no 1

module _ {R : Type 0} ⦃f : Float R⦄ where
  -- `max(0.0, a)`
  abbrev pub positive : R → R
  positive a = fmax (f.of_ℕ 0) a

  abbrev pub daily_capped : R → R → R → R → R
  daily_capped monthly fixed spent carryover =
      let allowance = positive fixed in
      if f.lt (f.of_ℕ 0) monthly
      then fmin allowance (positive (f.sub (f.sub monthly spent) carryover))
      else allowance

  abbrev pub monthly_share : R → R → R → ℕ → R
  monthly_share monthly spent carryover days =
      f.floor (f.div (positive (f.sub (f.sub monthly spent) carryover)) (f.of_ℕ (max 1 days)))

  unfoldable pub compute_daily_allowance : String → R → R → R → R → ℕ → R
  compute_daily_allowance mode monthly fixed spent carryover days =
      if mode == "total"
      then f.of_ℕ 0
      else (if mode == "daily"
          then daily_capped monthly fixed spent carryover
          else monthly_share monthly spent carryover days)

  abbrev pub plan_budget : Template R → Params R → R
  plan_budget t p = value_or p.monthly_budget (value_or t.budget (f.of_ℕ 3_000_000))

  abbrev pub daily_fixed_of : Params R → R
  daily_fixed_of p = value_or p.daily_fixed_budget (f.of_ℕ 150_000)

  abbrev pub carryover_of : Params R → R
  carryover_of p = value_or p.carryover_budget (f.of_ℕ 0)

  abbrev pub spent_of : Params R → R
  spent_of p = value_or p.monthly_spent (f.of_ℕ 0)

-- The dates of the standard library, as `calculate_remaining_trading_days` uses them.
pub record Dates (D : Type 0) : Type 0 where
  -- `datetime.strptime(_, "%Y-%m-%d").date()`, which may raise
  pub parse : String → Option D
  pub today : D
  pub year : D → ℕ
  pub month : D → ℕ
  pub day : D → ℕ
  -- `.replace(day=)` and `.replace(year=, month=, day=)`
  pub on_day : ℕ → D → D
  pub on_date : ℕ → ℕ → ℕ → D → D
  -- `- timedelta(days=1)`
  pub day_before : D → D
  pub weekday : D → ℕ

module _ {D : Type 0} where
  -- The days from `d` on, `n` of them.
  abbrev pub count_weekdays : Dates D → D → ℕ → ℕ → ℕ
  count_weekdays ds cur d zero = 0
  count_weekdays ds cur d (suc n) =
      (if ltb (ds.weekday (ds.on_day d cur)) 5 then 1 else 0) + count_weekdays ds cur (d + 1) n

  abbrev pub last_day_of_month : Dates D → D → ℕ
  last_day_of_month ds cur =
      let first =
        (if nat_beq (ds.month cur) 12
          then ds.on_date (ds.year cur + 1) 1 1 cur
          else ds.on_date (ds.year cur) (ds.month cur + 1) 1 cur) in
      ds.day (ds.day_before first)

  unfoldable pub calculate_remaining_trading_days : Dates D → String → ℕ
  calculate_remaining_trading_days ds date =
      let cur = value_or (ds.parse date) ds.today in
      max 1 (count_weekdays ds cur (ds.day cur) (last_day_of_month ds cur + 1 - ds.day cur))

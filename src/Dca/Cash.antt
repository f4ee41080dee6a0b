-- ===== src/Dca/Cash.antt =====
-- The cash that the regular purchases need: `extract_available_cash`, `_runs_in_next_7_days` and
-- `analyze_user_cash_sufficiency` of src/core/dca_manager.py. The answers of the exchanges for the
-- balances and the prices are arguments; the texts of a report are left out.
use supabot.Base.{
  Bool, List, Option, String, [], false, filter, if◌then◌else◌, length, map, max, min, nat_eq, none,
  some, string_eq, true, ℕ, ◌&&◌, ◌++◌, ◌==◌, ◌||◌, ◌∷◌,
}
use supabot.Dca.Schedules.{Schedule, is_active}
use supabot.Dca.Times.{Timing}
use supabot.Base.Float.{Float, fmax}
use supabot.Base.Int.{pos, pos_part, ◌-ℤ◌}
use supabot.Base.Text.{codes, same_codes, upper}
use supabot.Orders.Defs.{Order, Status, market_closed, pending_reorder, reserved}
use supabot.Sync.Defs.{is_bid}
use supabot.Gate.Defs.{is_us_stock_ticker}
use Prim.Native.Nat.{Ordering}
use Prim.Native.String.{compare}

-- A response of `get_balances`: none, a dictionary by its cash, or a list of currencies with their
-- balances. A balance that is no number is `none`.
pub data Balances (R : Type 0) : Type 0 where
  no_balances : Balances R
  summary : Option R → Balances R
  entries : List (String × Option R) → Balances R

pub data CashStatus : Type 0 where
  short_next warn_weekly enough_cash : CashStatus

pub record CashReport (R : Type 0) : Type 0 where
  pub exchange : String
  pub available_cash : R
  pub next_required_krw : R
  pub weekly_required_krw : R
  pub shortfall_next_krw : R
  pub shortfall_weekly_krw : R
  pub estimated_runs_left : Option R
  pub schedules_count : ℕ
  pub reserved_orders_count : ℕ
  pub status : CashStatus

-- `sorted` of a set of texts.
abbrev pub into_sorted : String → List String → List String
into_sorted s [] = s ∷ []
into_sorted s (t ∷ ts) =
    let later = into_sorted s ts in
    elim (compare s t) [ Ordering.lt ↦ s ∷ t ∷ ts | Ordering.eq ↦ t ∷ ts | Ordering.gt ↦ t ∷ later ]

abbrev pub sorted_set : List String → List String
sorted_set [] = []
sorted_set (s ∷ ss) = into_sorted s (sorted_set ss)

-- An order that is not yet at the exchange, so that its money is not locked there.
abbrev pub is_unplaced : Status → Bool
is_unplaced reserved = true
is_unplaced pending_reorder = true
is_unplaced market_closed = true
is_unplaced _ = false

abbrev pub frequency_runs : Timing → ℕ
frequency_runs t =
    if t.frequency == "daily"
    then 7
    else (if t.frequency == "days"
        then elim t.days_of_week [ none ↦ 1 | some days ↦ max 1 (length days) ]
        else 1)

-- How many of the runs of the next 7 days are left.
unfoldable pub runs_in_next_7_days : {R : Type 0} → Schedule R → ℕ
runs_in_next_7_days s = elim s.max_runs [
  | none ↦ frequency_runs s.timing
  | some most ↦ min (frequency_runs s.timing) (pos_part (most -ℤ pos s.run_count))
]

module _ {R : Type 0} ⦃f : Float R⦄ where
  -- `float(x or 0.0)`, and 0 where it raises.
  abbrev pub number_or_zero : Option R → R
  number_or_zero none = f.of_ℕ 0
  number_or_zero (some x) = x

  abbrev pub krw_balance : List (String × Option R) → R
  krw_balance [] = f.of_ℕ 0
  krw_balance ((currency, balance) ∷ rest) =
      if same_codes (upper currency) (codes "KRW") then number_or_zero balance else krw_balance rest

  unfoldable pub extract_available_cash : String → Balances R → Option R
  extract_available_cash exchange no_balances = none
  extract_available_cash exchange (summary cash) =
      if exchange == "kis" || exchange == "toss" then some (number_or_zero cash) else none
  extract_available_cash exchange (entries items) =
      if exchange == "kis" || exchange == "toss" then none else some (krw_balance items)

  -- 1,380 won for a dollar.
  abbrev pub in_krw : Bool → R → R
  in_krw is_usd amount = if is_usd then f.mul amount (f.of_ℕ 1_380) else amount

  -- What one run costs; `price` is the answer for the price of a ticker, 0 where there is none.
  abbrev pub run_cost : (String → R) → Schedule R → R
  run_cost price s =
      in_krw (is_us_stock_ticker s.exchange s.ticker)
        (if s.amount_type == "budget" then s.amount else f.mul (price s.ticker) s.amount)

  -- The sums for the next run and for a week.
  abbrev pub add_runs : (String → R) → R × R → List (Schedule R) → R × R
  add_runs price sums [] = sums
  add_runs price (next, weekly) (s ∷ rest) =
      let cost = run_cost price s in
      add_runs price (f.add next cost, f.add weekly (f.mul cost (f.of_ℕ (runs_in_next_7_days s))))
        rest

  abbrev pub add_reserved : R → List (Order R) → R
  add_reserved sum [] = sum
  add_reserved sum (o ∷ rest) =
      add_reserved
        (f.add sum (in_krw (is_us_stock_ticker o.exchange o.ticker) (f.mul o.price o.volume))) rest

  abbrev pub shortfall : R → R → R
  shortfall required cash = fmax (f.of_ℕ 0) (f.sub required cash)

  abbrev pub status_of : R → R → CashStatus
  status_of next weekly =
      if f.lt (f.of_ℕ 0) next
      then short_next
      else (if f.lt (f.of_ℕ 0) weekly then warn_weekly else enough_cash)

  -- The purchases and the waiting orders of one exchange, against its cash.
  unfoldable pub cash_report :
      String → R → (String → R) → List (Schedule R) → List (Order R) → CashReport R
  cash_report ex cash price schedules orders =
      let sums = add_runs price (f.of_ℕ 0, f.of_ℕ 0) schedules in
      let kept = add_reserved (f.of_ℕ 0) orders in
      let next = f.add sums.0 kept in
      let weekly = f.add sums.1 kept in
      record {
        exchange = ex;
        available_cash = f.round cash;
        next_required_krw = f.round next;
        weekly_required_krw = f.round weekly;
        shortfall_next_krw = f.round (shortfall next cash);
        shortfall_weekly_krw = f.round (shortfall weekly cash);
        estimated_runs_left =
            if f.lt (f.of_ℕ 0) sums.0
            then some (f.trunc (f.floor_div (shortfall cash kept) sums.0))
            else none;
        schedules_count = length schedules;
        reserved_orders_count = length orders;
        status = status_of (shortfall next cash) (shortfall weekly cash);
      }

  abbrev pub reports_at :
      (String → Option R)
      → (String → String → R)
      → List (Schedule R)
      → List (Order R)
      → List String
      → List (CashReport R)
  unfolding cash_report
  reports_at cash price schedules orders [] = []
  reports_at cash price schedules orders (ex ∷ rest) =
      let more = reports_at cash price schedules orders rest in
      elim (cash ex) [
        | none ↦ more
        | some c ↦
            cash_report ex c (price ex) (filter (λ s. s.exchange == ex) schedules)
              (filter (λ o. o.exchange == ex) orders)
            ∷ more
      ]

  -- The user's active purchases and waiting orders, exchange by exchange; an exchange whose cash is
  -- not known has no report.
  unfoldable pub analyze_user_cash_sufficiency :
      String
      → (String → Balances R)
      → (String → String → R)
      → List (Schedule R)
      → List (Order R)
      → List (CashReport R)
  unfolding extract_available_cash reports_at
  analyze_user_cash_sufficiency user balances price schedules orders =
      let own = filter (λ s. s.user_id == user && is_active s.status && is_bid s.side) schedules in
      let waiting =
        filter (λ o. o.user_id == user && is_bid o.side && is_unplaced o.status) orders in
      reports_at (λ ex. extract_available_cash ex (balances ex)) price own waiting
        (sorted_set (map (λ s. s.exchange) own ++ map (λ o. o.exchange) waiting))

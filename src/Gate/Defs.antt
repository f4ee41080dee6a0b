-- ===== src/Gate/Defs.antt =====
-- The rules of src/core/trading_gate.py for a new order, and the caps of src/core/parsers.py. The
-- result is the reason of a refusal, and `none` for `(True, None)`.
use supabot.Base.{
  Bool, List, Option, String, [], any, false, if◌then◌else◌, none, not, some, string_eq, true, ℕ,
  ◌&&◌, ◌==◌, ◌||◌, ◌∷◌,
}
use supabot.Base.Float.{Float, fmax}
use supabot.Base.Int.{leb_ℤ, pos, ℤ}
use supabot.Base.Text.{codes, is_alpha, lower, same_codes, strip, upper_codes, without_krw}
use supabot.Orders.Defs.{Order, Side}
use supabot.Sync.Defs.{is_bid}
use supabot.Gate.Halt.{Halt, Reading, is_trading_halted}

pub data Refused : Type 0 where
  halted daily_orders daily_loss ticker_exposure : Refused
  top_universe other_strategy dca_running total_exposure : Refused

abbrev in_codes : List ℕ → List String → Bool
in_codes t top = any (λ s. same_codes t (codes s)) top

abbrev pub default_top_universe_tickers : List String
default_top_universe_tickers =
    "005930" ∷ "000660" ∷ "373220" ∷ "207940" ∷ "005380" ∷ "000270" ∷ "068270" ∷ "105560" ∷ "055550"
    ∷ "012450" ∷ []

abbrev pub top_set_of : Option (List String) → List String
top_set_of none = default_top_universe_tickers
top_set_of (some top) = top

unfoldable pub is_top_universe_ticker : String → Option (List String) → Bool
is_top_universe_ticker ticker custom =
    if ticker == ""
    then false
    else in_codes (upper_codes (strip (codes ticker))) (top_set_of custom)

-- `_STRATEGY_FAMILIES`
abbrev pub strategy_families : List (String × String)
strategy_families =
    ("rsitrade", "rsi")
    ∷ ("rsitrade_sell", "rsi")
    ∷ ("gridrsi", "rsi")
    ∷ ("grid", "grid")
    ∷ ("sgrid", "grid")
    ∷ ("sgridrsi", "sgridrsi")
    ∷ ("dca", "dca")
    ∷ ("sdca", "dca")
    ∷ ("kospi_top", "kospi_top")
    ∷ []

abbrev pub family_in : List ℕ → List (String × String) → List ℕ
family_in cs [] = cs
family_in cs ((name, family) ∷ rest) =
    if same_codes cs (codes name) then codes family else family_in cs rest

-- A family is given by the codes of its name.
unfoldable pub get_strategy_family : String → List ℕ
get_strategy_family strategy =
    if strategy == "" then codes "manual" else family_in (lower strategy) strategy_families

abbrev pub is_exempt : String → Bool
is_exempt strategy = strategy == "manual" || strategy == "stoploss"

-- An order of the ticker that another family of strategies runs.
abbrev pub is_conflict : {R : Type 0} → String → List ℕ → Order R → Bool
unfolding get_strategy_family
is_conflict ticker family o =
    o.ticker == ticker
    && not (o.strategy == "" || is_exempt o.strategy)
    && not (same_codes (get_strategy_family o.strategy) family)

-- The orders, then the tickers of the schedules.
abbrev pub check_conflicts :
    {R : Type 0} → List (Order R) → String → List ℕ → List String → Option Refused
unfolding get_strategy_family
check_conflicts orders ticker family schedules =
    if any (is_conflict ticker family) orders
    then some other_strategy
    else (if any (λ t. t == ticker) schedules && not (same_codes family (codes "dca"))
        then some dca_running
        else none)

-- An empty text is no ticker.
abbrev pub given : Option String → Option String
given none = none
given (some t) = if t == "" then none else some t

unfoldable pub assert_single_strategy_per_ticker :
    {R : Type 0}
    → List (Order R)
    → Option String
    → String
    → List String
    → Option (List String)
    → Bool
    → Option Refused
unfolding get_strategy_family is_top_universe_ticker
assert_single_strategy_per_ticker orders ticker strategy schedules top partition =
    elim (given ticker) [
      | none ↦ none
      | some t ↦
          let family = get_strategy_family strategy in
          if is_exempt strategy
          then none
          else (if partition
                && not (same_codes family (codes "kospi_top"))
                && is_top_universe_ticker t top
              then some top_universe
              else check_conflicts orders t family schedules)
    ]

-- The preferences of a user that the rules read.
pub record Prefs (R : Type 0) : Type 0 where
  pub daily_max_order_count : Option ℤ
  pub daily_max_loss_krw : Option R
  pub max_ticker_exposure_krw : Option R
  pub max_open_exposure_krw : Option R

-- A new order, and the counts of the day.
pub record Request (R : Type 0) : Type 0 where
  pub new_order_krw : R
  pub is_usd : Bool
  pub ticker : Option String
  pub side : Side
  pub strategy : String
  pub today_order_count : ℕ
  pub today_realized_loss_krw : R

-- `is_us_stock_ticker` of src/core/parsers.py
abbrev pub is_us_stock_ticker : String → String → Bool
is_us_stock_ticker exchange ticker = exchange == "toss" && is_alpha (without_krw ticker)

abbrev pub reaches_count : Option ℤ → ℕ → Bool
reaches_count none n = false
reaches_count (some most) n = leb_ℤ most (pos n)

-- The first reason, if there is one.
abbrev pub or_else : Option Refused → Option Refused → Option Refused
or_else (some reason) next = some reason
or_else none next = next

module _ {R : Type 0} ⦃f : Float R⦄ where
  abbrev pub open_krw : Order R → R
  open_krw o = fmax (f.sub o.volume o.filled_volume) (f.of_ℕ 0)

  abbrev pub add_ticker_exposure : String → R → List (Order R) → R
  add_ticker_exposure ticker acc [] = acc
  add_ticker_exposure ticker acc (o ∷ os) =
      let here = add_ticker_exposure ticker (f.add acc (f.mul (open_krw o) o.price)) os in
      let rest = add_ticker_exposure ticker acc os in
      if o.ticker == ticker && is_bid o.side then here else rest

  abbrev pub add_exposure : R → List (Order R) → R
  add_exposure acc [] = acc
  add_exposure acc (o ∷ os) =
      let here = add_exposure (f.add acc (f.mul o.price (open_krw o))) os in
      let rest = add_exposure acc os in
      if is_us_stock_ticker o.exchange o.ticker then rest else here

  unfoldable pub compute_open_exposure_krw : List (Order R) → R
  compute_open_exposure_krw orders = add_exposure (f.of_ℕ 0) orders

  unfoldable pub validate_total_exposure : Option R → R → R → Bool → Option Refused
  validate_total_exposure cap current new is_usd = elim cap [
    | none ↦ none
    | some c ↦ if not is_usd && f.lt c (f.add current new) then some total_exposure else none
  ]

  abbrev pub reaches_loss : Option R → R → Bool
  reaches_loss none loss = false
  reaches_loss (some most) loss = f.le most loss

  -- The cap on one ticker holds for purchases.
  abbrev pub exceeds_ticker_cap : Option R → List (Order R) → Request R → Bool
  exceeds_ticker_cap none orders r = false
  exceeds_ticker_cap (some cap) orders r = elim (given r.ticker) [
    | none ↦ false
    | some t ↦
        is_bid r.side && f.lt cap (f.add (add_ticker_exposure t (f.of_ℕ 0) orders) r.new_order_krw)
  ]

  unfoldable pub assert_risk_limits : Prefs R → List (Order R) → Request R → Option Refused
  assert_risk_limits prefs orders r =
      if r.strategy == "stoploss"
      then none
      else (if reaches_count prefs.daily_max_order_count r.today_order_count
          then some daily_orders
          else (if reaches_loss prefs.daily_max_loss_krw r.today_realized_loss_krw
              then some daily_loss
              else (if exceeds_ticker_cap prefs.max_ticker_exposure_krw orders r
                  then some ticker_exposure
                  else none)))

  -- The last three rules, behind the stop of trading.
  unfoldable pub check_limits : Prefs R → List (Order R) → Request R → Option Refused
  unfolding assert_risk_limits assert_single_strategy_per_ticker validate_total_exposure
      compute_open_exposure_krw
  check_limits prefs orders r = or_else (assert_risk_limits prefs orders r) (
      or_else (assert_single_strategy_per_ticker orders r.ticker r.strategy [] none true) (
        validate_total_exposure prefs.max_open_exposure_krw (compute_open_exposure_krw orders)
          r.new_order_krw r.is_usd))

  unfoldable pub check_can_place_order :
      Reading → ℕ → Prefs R → List (Order R) → Request R → Halt → Option Refused × Halt
  unfolding is_trading_halted check_limits
  check_can_place_order reading now prefs orders r h =
      let (stopped, h') = is_trading_halted reading now h in
      if r.strategy == "stoploss"
      then (none, h)
      else (if stopped then (some halted, h') else (check_limits prefs orders r, h'))

-- ===== src/Signal/Search.antt =====
-- `_search_price_for_target_rsi` of src/core/signal_engine.py. The RSI after a next close is a
-- function `rsi`: the indicator of a library on a fixed series of closes. The averages of
-- gains and losses are those of pandas, and `none` if they could not be computed.
use supabot.Base.{Option, if◌then◌else◌, none, some, suc, zero, ℕ, ◌&&◌}
use supabot.Base.Float.{Float, fabs, fmax, fmin, ratio}
use supabot.Orders.Defs.{Side, ask, bid}

pub record Averages (R : Type 0) : Type 0 where
  pub gain : R
  pub loss : R

-- What the estimate gives: nothing, a price that is close enough, or a price with its RSI.
pub data Guess (R : Type 0) : Type 0 where
  unknown : Guess R
  close_enough : R → Guess R
  near : R → R → Guess R

module _ {R : Type 0} ⦃f : Float R⦄ where
  -- `target / (100 - target)`
  abbrev pub target_rs : R → R
  target_rs target =
      if f.lt target (f.of_ℕ 100)
      then f.div target (f.sub (f.of_ℕ 100) target)
      else f.of_ℕ 1_000_000_000

  -- An estimated price, checked against the target.
  abbrev pub judged : (R → R) → R → R → Guess R
  judged rsi target price =
      if f.le (fabs (f.sub (rsi price) target)) (ratio 1 5)
      then close_enough price
      else near price (rsi price)

  unfoldable pub guess_bid : (R → R) → R → R → R → Option (Averages R) → Guess R
  guess_bid rsi period target current none = unknown
  guess_bid rsi period target current (some avg) =
      let weight = f.sub period (f.of_ℕ 1) in
      let loss = f.sub (f.div (f.mul weight avg.gain) (target_rs target)) (f.mul weight avg.loss) in
      let price = f.sub current loss in
      if f.lt (f.of_ℕ 0) loss && f.lt (f.of_ℕ 0) price && f.le price current
      then judged rsi target price
      else unknown

  unfoldable pub guess_ask : (R → R) → R → R → R → Option (Averages R) → Guess R
  guess_ask rsi period target current none = unknown
  guess_ask rsi period target current (some avg) =
      let weight = f.sub period (f.of_ℕ 1) in
      let rise = f.sub (f.mul (f.mul (target_rs target) weight) avg.loss) (f.mul weight avg.gain) in
      let price = f.add current rise in
      if f.lt (f.of_ℕ 0) rise && f.le current price then judged rsi target price else unknown

  -- The bounds of the search, the lower one first.
  abbrev pub bid_bounds : R → R → R → Guess R → R × R
  bid_bounds target current limit (near price found) =
      if f.le found target
      then (fmax (f.mul price (ratio 9 10)) limit, current)
      else (fmax (f.mul price (ratio 1 2)) limit, price)
  bid_bounds target current limit guess = (f.mul current (ratio 1 2), current)

  abbrev pub ask_bounds : R → R → R → Guess R → R × R
  ask_bounds target current limit (near price found) =
      if f.le target found
      then (current, fmin (f.mul price (ratio 11 10)) limit)
      else (price, fmin (f.mul price (ratio 3 2)) limit)
  ask_bounds target current limit guess = (current, f.mul current (ratio 3 2))

  -- The lower bound is halved until its RSI reaches the target, at most as often as the fuel says.
  unfoldable pub lower_bound : (R → R) → R → R → ℕ → R → R
  lower_bound rsi target limit zero low = low
  lower_bound rsi target limit (suc n) low =
      let lower = lower_bound rsi target limit n (f.mul low (ratio 1 2)) in
      if f.lt limit low && f.lt target (rsi low) then lower else low

  unfoldable pub raise_bound : (R → R) → R → R → ℕ → R → R
  raise_bound rsi target limit zero high = high
  raise_bound rsi target limit (suc n) high =
      let higher = raise_bound rsi target limit n (f.mul high (ratio 3 2)) in
      if f.lt high limit && f.lt (rsi high) target then higher else high

  abbrev pub middle : R → R → R
  middle low high = f.div (f.add low high) (f.of_ℕ 2)

  -- The lower end after the rounds, whose RSI is not above the target.
  unfoldable pub bisect_bid : (R → R) → R → ℕ → R → R → R
  bisect_bid rsi target zero low high = low
  bisect_bid rsi target (suc n) low high =
      let mid = middle low high in
      let reached = f.le (rsi mid) target in
      bisect_bid rsi target n (if reached then mid else low) (if reached then high else mid)

  unfoldable pub bisect_ask : (R → R) → R → ℕ → R → R → R
  bisect_ask rsi target zero low high = high
  bisect_ask rsi target (suc n) low high =
      let mid = middle low high in
      let reached = f.le target (rsi mid) in
      bisect_ask rsi target n (if reached then low else mid) (if reached then mid else high)

  unfoldable pub search_bid : (R → R) → R → R → Guess R → Option R
  unfolding lower_bound bisect_bid
  search_bid rsi target current guess =
      let limit = fmax (f.mul current (ratio 1 10_000)) (ratio 1 100_000_000) in
      let (start, high) = bid_bounds target current limit guess in
      let low = lower_bound rsi target limit 15 start in
      if f.lt target (rsi low) then none else some (bisect_bid rsi target 16 low high)

  unfoldable pub search_ask : (R → R) → R → R → Guess R → Option R
  unfolding raise_bound bisect_ask
  search_ask rsi target current guess =
      let limit = f.mul current (f.of_ℕ 10) in
      let (low, start) = ask_bounds target current limit guess in
      let high = raise_bound rsi target limit 15 start in
      if f.lt (rsi high) target then none else some (bisect_ask rsi target 16 low high)

  abbrev pub from_guess : (Guess R → Option R) → Guess R → Option R
  from_guess search (close_enough price) = some price
  from_guess search guess = search guess

  -- The current price, the current RSI and the target.
  unfoldable pub search_price_for_target_rsi :
      (R → R) → R → Option (Averages R) → Side → R → R → R → Option R
  unfolding guess_bid guess_ask search_bid search_ask
  search_price_for_target_rsi rsi period avg bid current current_rsi target =
      if f.le current_rsi target
      then some current
      else from_guess (search_bid rsi target current) (guess_bid rsi period target current avg)
  search_price_for_target_rsi rsi period avg ask current current_rsi target =
      if f.le target current_rsi
      then some current
      else from_guess (search_ask rsi target current) (guess_ask rsi period target current avg)

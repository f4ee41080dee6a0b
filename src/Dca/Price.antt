-- ===== src/Dca/Price.antt =====
-- The limit price of a scheduled order: `_compute_dca_limit_price` of src/core/dca_manager.py.
use supabot.Base.{Option, String, if◌then◌else◌, none, some}
use supabot.Base.Float.{Float, ratio}
use supabot.Orders.Defs.{Side}
use supabot.Sync.Defs.{Market, Quote, is_bid}

module _ {R : Type 0} ⦃f : Float R⦄ where
  -- A limit that a test takes for true and that is positive.
  abbrev pub limit_of : Option R → Option R
  limit_of none = none
  limit_of (some x) = if f.lt (f.of_ℕ 0) x then some x else none

module _ {R W : Type 0} ⦃f : Float R⦄ where
  abbrev pub bid_price : Market R W → String → R → Option R → R
  bid_price ex ticker current upper =
      let price = ex.adjust_price_to_tick (f.mul current (ratio 1001 1000)) ticker in
      let tick = ex.adjust_price_to_tick current ticker in
      let raised_price = (if f.lt price tick then tick else price) in
      elim (limit_of upper) [
        | none ↦ raised_price
        | some u ↦ if f.lt u raised_price then ex.adjust_price_to_tick u ticker else raised_price
      ]

  abbrev pub ask_price : Market R W → String → R → Option R → R
  ask_price ex ticker current lower_limit =
      let price = ex.adjust_price_to_tick (f.mul current (ratio 999 1000)) ticker in
      let kept =
        (if f.le price (f.of_ℕ 0) then ex.adjust_price_to_tick current ticker else price) in
      elim (limit_of lower_limit) [
        | none ↦ kept
        | some l ↦ if f.lt kept l then ex.adjust_price_to_tick l ticker else kept
      ]

  unfoldable pub compute_dca_limit_price : Market R W → String → Side → R → Option (Quote R) → R
  compute_dca_limit_price ex ticker side current quote =
      if is_bid side
      then bid_price ex ticker current (elim quote [ none ↦ none | some q ↦ q.upper_limit_price ])
      else ask_price ex ticker current (elim quote [ none ↦ none | some q ↦ q.lower_limit_price ])

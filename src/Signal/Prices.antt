-- ===== src/Signal/Prices.antt =====
-- `get_prices_by_rsi` and `get_price_by_rsi` of src/core/signal_engine.py. `get_rsi` is a
-- parameter: it gives the RSI and the closes of a market, if it could.
use supabot.Base.{List, Option, String, [], if◌then◌else◌, ltb, map, none, some, string_eq, ℕ, ◌∷◌}
use supabot.Signal.Search.{Averages, search_price_for_target_rsi}
use supabot.Base.Float.{Float, ratio}
use supabot.Orders.Defs.{Side, ask, bid}
use supabot.Sync.Defs.{Market}

-- The closes: how many there are, the last one, the RSI after a next close, and the averages.
pub record Closes (R : Type 0) : Type 0 where
  pub count : ℕ
  pub last : R
  pub next_rsi : R → R
  pub averages : Option (Averages R)

module _ {R : Type 0} where
  -- A purchase goes a little below the price, a sale a little above it.
  abbrev pub buffered : ⦃f : Float R⦄ → Side → R → R
  buffered ⦃f⦄ bid price = f.mul price (f.sub (f.of_ℕ 1) (ratio 1 1_000))
  buffered ⦃f⦄ ask price = f.mul price (f.add (f.of_ℕ 1) (ratio 1 1_000))

  -- The RSI and the closes that serve: both are there, and there are enough closes.
  abbrev pub usable : ℕ → Option (R × Closes R) → Option (R × Closes R)
  usable period none = none
  usable period (some (rsi, c)) = if ltb c.count period then none else some (rsi, c)

  abbrev pub first_price : List (Option R) → Option R
  first_price [] = none
  first_price (p ∷ ps) = p

module _ {R W : Type 0} ⦃f : Float R⦄ where
  abbrev pub on_tick : Market R W → String → Side → Option R → Option R
  on_tick ex ticker side none = none
  on_tick ex ticker side (some price) = some (ex.adjust_price_to_tick (buffered side price) ticker)

  unfoldable pub get_prices_by_rsi :
      Market R W → String → Side → ℕ → Option (R × Closes R) → List R → List (Option R)
  unfolding search_price_for_target_rsi
  get_prices_by_rsi ex ticker side period found targets = elim (usable period found) [
    | none ↦ map (λ _. none) targets
    | some p ↦
        map
          (λ target. on_tick ex ticker side (
            search_price_for_target_rsi p.1.next_rsi (f.of_ℕ period) p.1.averages side p.1.last p.0
              target))
          targets
  ]

  unfoldable pub get_price_by_rsi :
      Market R W → String → Side → ℕ → Option (R × Closes R) → R → Option R
  unfolding get_prices_by_rsi
  get_price_by_rsi ex ticker side period found target =
      first_price (get_prices_by_rsi ex ticker side period found (target ∷ []))

-- ===== src/Daily/Buy.antt =====
-- The second part of the daily step: the targets are bought in turn, as long as the budget pays.
-- What the loop over the targets changes.
use supabot.Base.{
  Bool, List, Option, String, [], all, any, filter, if◌then◌else◌, map, none, not, some, string_eq,
  suc, true, zero, ℕ, ◌&&◌, ◌++◌, ◌+◌, ◌∷◌,
}
use supabot.Base.Float.{Float, fmax, ratio}
use supabot.Base.Dict.{Dict, insert, lookup}
use supabot.Budget.Defs.{mem_text, value_or}
use supabot.Daily.Defs.{DayOrder, Holding, Item, Settings, Waiting}

pub record Cart (R : Type 0) : Type 0 where
  pub carryover : R
  pub spent : R
  pub bought : List String
  pub holdings : Dict String (Holding R)
  pub buys : List (DayOrder R)

-- Where the rounds stop: the cycle they have come to, and the target that waits.
pub record Rounds (R : Type 0) : Type 0 where
  pub cart : Cart R
  pub cycle_no : ℕ
  pub skipped : List String
  pub waiting : Option (Waiting R)

module _ {R : Type 0} ⦃f : Float R⦄ where
  abbrev pub target_qty : Settings R → R → R
  target_qty s price =
      if s.by_amount
      then fmax (f.of_ℕ 1) (f.round (f.div s.target_krw (fmax (f.of_ℕ 1) price)))
      else f.of_ℕ 1

  abbrev pub no_holding : Holding R
  no_holding = record { qty = f.of_ℕ 0; total_cost = f.of_ℕ 0; avg_price = f.of_ℕ 0 }

  abbrev pub grown : R → R → Holding R → Holding R
  grown cost qty h = record {
    qty = f.add h.qty qty;
    total_cost = f.add h.total_cost cost;
    avg_price = f.div (f.add h.total_cost cost) (f.add h.qty qty);
  }

  abbrev pub buy_item : Settings R → ℕ → R → Item R → Cart R → Cart R
  buy_item s cycle price i c =
      let qty = target_qty s price in
      let cost = f.mul qty price in
      let order : DayOrder R = record {
        code = i.code;
        price = price;
        volume = qty;
        cost = cost;
        group_no = s.group_no;
        cycle_no = cycle;
      } in
      record {
        carryover = f.sub c.carryover cost;
        spent = f.add c.spent cost;
        bought = c.bought ++ i.code ∷ [];
        holdings =
            insert i.code (grown cost qty (value_or (lookup i.code c.holdings) no_holding))
              c.holdings;
        buys = c.buys ++ order ∷ [];
      }

  abbrev pub waiting_for : Settings R → R → Item R → Cart R → Waiting R
  waiting_for s price i c =
      let qty = target_qty s price in
      let cost = f.mul qty price in
      record {
        code = i.code;
        rank = i.rank;
        price = price;
        target_qty = qty;
        required_krw = cost;
        carryover = c.carryover;
        shortfall = f.sub cost c.carryover;
      }

  -- `carryover_budget + 1e-6 >= cost`
  abbrev pub is_affordable : R → R → Bool
  is_affordable cost carryover = f.le cost (f.add carryover (ratio 1 1_000_000))

  -- One round over the targets, up to the first that the budget does not pay for.
  unfoldable pub buy_round :
      Settings R → ℕ → Dict String R → List (Item R) → Cart R → Cart R × Option (Waiting R)
  buy_round s cycle prices [] c = (c, none)
  buy_round s cycle prices (i ∷ is) c =
      let price = value_or (lookup i.code prices) i.price in
      let skip = buy_round s cycle prices is c in
      let buy = buy_round s cycle prices is (buy_item s cycle price i c) in
      if mem_text i.code c.bought
      then skip
      else (if is_affordable (f.mul (target_qty s price) price) c.carryover
          then buy
          else (c, some (waiting_for s price i c)))

  -- The targets that can be traded are all bought.
  abbrev pub is_complete : List (Item R) → List String → List String → Bool
  is_complete is skipped bought =
      let codes_left = filter (λ c. not (mem_text c skipped)) (map (λ i. i.code) is) in
      any (λ c. true) codes_left && all (λ c. mem_text c bought) codes_left

  -- What follows a round: `again` is the next cycle, on the empty list of purchases.
  abbrev pub after_round :
      List (Item R) → ℕ → List String → Cart R → Option (Waiting R) → Rounds R → Rounds R
  after_round is cycle skipped c (some w) again = record {
    cart = c;
    cycle_no = cycle;
    skipped = skipped;
    waiting = some w;
  }
  after_round is cycle skipped c none again =
      if not (is_complete is skipped c.bought)
      then record { cart = c; cycle_no = cycle; skipped = skipped; waiting = none }
      else (if f.le c.carryover (f.of_ℕ 1_000)
          then record {
            cart = record c { bought = [] };
            cycle_no = cycle + 1;
            skipped = [];
            waiting = none;
          }
          else again)

  -- At most `n` rounds; a complete one starts the next cycle if more than 1000 is left.
  unfoldable pub buy_rounds :
      ℕ → Settings R → Dict String R → List (Item R) → ℕ → List String → Cart R → Rounds R
  buy_rounds zero s prices is cycle skipped c = record {
    cart = c;
    cycle_no = cycle;
    skipped = skipped;
    waiting = none;
  }
  buy_rounds (suc n) s prices is cycle skipped c =
      let r = buy_round s cycle prices is c in
      let next : Cart R = record r.0 { bought = [] } in
      let again = buy_rounds n s prices is (cycle + 1) [] next in
      after_round is cycle skipped r.0 r.1 again

-- ===== src/Daily/Sell.antt =====
-- The first part of the daily step: holdings that have left the target range are sold in parts.
-- What the loop over the holdings changes.
use supabot.Base.{
  Bool, List, Option, String, [], if◌then◌else◌, leb, ltb, max, nat_beq, none, some, string_eq, ℕ,
  ◌&&◌, ◌++◌, ◌+◌, ◌-◌, ◌||◌, ◌∷◌,
}
use supabot.Base.Float.{Float, fmax, fmin, ratio}
use supabot.Base.Dict.{Dict, contains, erase, insert, lookup}
use supabot.Budget.Defs.{mem_text, value_or}
use supabot.Daily.Defs.{DayOrder, Holding, Progress, Settings}

pub record Shop (R : Type 0) : Type 0 where
  pub streaks : Dict String ℕ
  pub progress : Dict String (Progress R)
  pub holdings : Dict String (Holding R)
  pub carryover : R
  pub sells : List (DayOrder R)

-- Where a holding stands in the ranking.
pub data Place : Type 0 where
  target promoted tolerated outside : Place

abbrev pub place_of : {R : Type 0} → Settings R → Bool → ℕ → Place
place_of s is_target rank =
    if is_target
    then target
    else (if ltb rank s.rank_start && s.holds_on_promotion
        then promoted
        else (if leb rank (s.rank_end + s.rank_buffer) && leb s.rank_start rank
            then tolerated
            else outside))

module _ {R : Type 0} where
  -- It is no longer to be sold.
  abbrev pub release : String → Shop R → Shop R
  release code d = record d { streaks = erase code d.streaks; progress = erase code d.progress }

  abbrev pub new_progress : Settings R → R → Progress R
  new_progress s qty = record {
    total_days = s.split_days;
    remaining_days = s.split_days;
    initial_qty = qty;
    first_exit_date = s.date;
    last_sell_date = s.date;
  }

  -- A day outside counts; enough of them start the sale.
  abbrev pub confirm_exit : Settings R → String → R → Shop R → Shop R
  confirm_exit s code qty d =
      let streak = value_or (lookup code d.streaks) 0 + 1 in
      if contains code d.progress
      then d
      else (if leb s.confirm_days streak
          then record d {
            streaks = erase code (insert code streak d.streaks);
            progress = insert code (new_progress s qty) d.progress;
          }
          else record d { streaks = insert code streak d.streaks })

module _ {R : Type 0} ⦃f : Float R⦄ where
  -- `min(net_qty, max(1.0, math.ceil(net_qty / rem_days)))`
  abbrev pub sell_qty : R → ℕ → R
  sell_qty qty days = fmin qty (fmax (f.of_ℕ 1) (f.ceil_div qty (f.of_ℕ days)))

  abbrev pub sold_off : R → ℕ → Bool
  sold_off left days = f.le left (ratio 1 1_000_000) || nat_beq days 0

  -- One part of a sale; `is_dry_run` pays the proceeds at once.
  abbrev pub sell_part :
      Settings R → ℕ → Bool → String → R → Holding R → Progress R → Shop R → Shop R
  sell_part s cycle is_dry_run code price h p d =
      let days = max 1 p.remaining_days in
      let volume = sell_qty h.qty days in
      let left = fmax (f.of_ℕ 0) (f.sub h.qty volume) in
      let next : Progress R = record p { remaining_days = days - 1; last_sell_date = s.date } in
      let sale : DayOrder R = record {
        code = code;
        price = price;
        volume = volume;
        cost = f.mul volume price;
        group_no = s.group_no;
        cycle_no = cycle;
      } in
      if f.lt (f.of_ℕ 0) volume
      then record d {
        progress =
            (if sold_off left (days - 1)
              then erase code (insert code next d.progress)
              else insert code next d.progress);
        holdings = insert code (record h { qty = left }) d.holdings;
        carryover =
            (if is_dry_run && s.recycles
              then f.add d.carryover (f.mul volume price)
              else d.carryover);
        sells = d.sells ++ sale ∷ [];
      }
      else d

  abbrev pub sell_queued :
      Settings R → ℕ → Bool → String → R → Holding R → Option (Progress R) → Shop R → Shop R
  sell_queued s cycle is_dry_run code price h none d = d
  sell_queued s cycle is_dry_run code price h (some p) d =
      sell_part s cycle is_dry_run code price h p d

  abbrev pub sell_left : Settings R → ℕ → Bool → String → R → Holding R → Shop R → Shop R
  sell_left s cycle is_dry_run code price h d =
      let d' = confirm_exit s code h.qty d in
      sell_queued s cycle is_dry_run code price h (lookup code d'.progress) d'

  abbrev pub sell_placed : Settings R → ℕ → Bool → String → R → Holding R → Place → Shop R → Shop R
  sell_placed s cycle is_dry_run code price h target d = release code d
  sell_placed s cycle is_dry_run code price h promoted d = release code d
  sell_placed s cycle is_dry_run code price h tolerated d = record d {
    streaks = erase code d.streaks;
  }
  sell_placed s cycle is_dry_run code price h outside d =
      sell_left s cycle is_dry_run code price h d

  abbrev pub sell_held :
      Settings R
      → ℕ
      → Bool
      → Dict String ℕ
      → Dict String R
      → List String
      → String
      → Holding R
      → Shop R
      → Shop R
  sell_held s cycle is_dry_run rank_map prices targets code h d =
      let rank = value_or (lookup code rank_map) 9_999 in
      let price = value_or (lookup code prices) h.avg_price in
      sell_placed s cycle is_dry_run code price h (place_of s (mem_text code targets) rank) d

  abbrev pub sell_one :
      Settings R
      → ℕ
      → Bool
      → Dict String ℕ
      → Dict String R
      → List String
      → String
      → Holding R
      → Shop R
      → Shop R
  sell_one s cycle is_dry_run rank_map prices targets code h d =
      if f.lt (f.of_ℕ 0) h.qty
      then sell_held s cycle is_dry_run rank_map prices targets code h d
      else d

  -- The holdings at the start, one after the other; one that is empty is left alone.
  unfoldable pub sell_exits :
      Settings R
      → ℕ
      → Bool
      → Dict String ℕ
      → Dict String R
      → List String
      → Dict String (Holding R)
      → Shop R
      → Shop R
  sell_exits s cycle is_dry_run rank_map prices targets [] d = d
  sell_exits s cycle is_dry_run rank_map prices targets ((code, h) ∷ hs) d =
      sell_exits s cycle is_dry_run rank_map prices targets hs
        (sell_one s cycle is_dry_run rank_map prices targets code h d)

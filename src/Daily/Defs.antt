-- ===== src/Daily/Defs.antt =====
-- The state of the ranking strategy, and what the daily step reads from it.
use supabot.Base.{
  Bool, List, Option, String, [], false, if◌then◌else◌, none, some, string_eq, ℕ, ◌+◌, ◌==◌, ◌∷◌,
}
use supabot.Base.Float.{Float}
use supabot.Base.Dict.{Dict, contains, insert}
use supabot.Budget.Defs.{value_or}

pub record Holding (R : Type 0) : Type 0 where
  pub qty : R
  pub total_cost : R
  pub avg_price : R

-- A holding that is sold over several days.
pub record Progress (R : Type 0) : Type 0 where
  pub total_days : ℕ
  pub remaining_days : ℕ
  pub initial_qty : R
  pub first_exit_date : String
  pub last_sell_date : String

-- A member of the list of targets.
pub record Item (R : Type 0) : Type 0 where
  pub code : String
  pub rank : ℕ
  pub price : R

-- A member of the list of all ranks, whose price may be missing.
pub record Ranked (R : Type 0) : Type 0 where
  pub code : String
  pub rank : ℕ
  pub price : Option R

-- The target that the budget does not pay for.
pub record Waiting (R : Type 0) : Type 0 where
  pub code : String
  pub rank : ℕ
  pub price : R
  pub target_qty : R
  pub required_krw : R
  pub carryover : R
  pub shortfall : R

pub record DayOrder (R : Type 0) : Type 0 where
  pub code : String
  pub price : R
  pub volume : R
  pub cost : R
  pub group_no : ℕ
  pub cycle_no : ℕ

pub record State (R : Type 0) : Type 0 where
  pub rank_start : Option ℕ
  pub rank_end : Option ℕ
  pub top_n : Option ℕ
  pub upper_exit_mode : Option String
  pub exit_rank_buffer : Option ℕ
  pub exit_confirm_days : Option ℕ
  pub sell_split_days : Option ℕ
  pub cycle_alloc_mode : Option String
  pub cycle_target_krw : Option R
  pub sell_proceeds_mode : Option String
  pub last_group_no : Option ℕ
  pub cycle_no : Option ℕ
  pub carryover_budget : Option R
  pub monthly_spent : Option R
  pub current_cycle_bought : List String
  pub skipped_untradable : List String
  pub exit_candidate_streaks : Dict String ℕ
  pub exit_progress : Dict String (Progress R)
  pub holdings : Dict String (Holding R)
  pub next_target_ticker : Option (Waiting R)
  pub last_run_date : Option String

-- The settings, with their defaults, and the numbers of the day.
pub record Settings (R : Type 0) : Type 0 where
  pub rank_start : ℕ
  pub rank_end : ℕ
  pub holds_on_promotion : Bool
  pub rank_buffer : ℕ
  pub confirm_days : ℕ
  pub split_days : ℕ
  pub by_amount : Bool
  pub target_krw : R
  pub recycles : Bool
  pub group_no : ℕ
  pub date : String

abbrev pub is_text : Option String → String → Bool
is_text none t = false
is_text (some s) t = s == t

module _ {R : Type 0} ⦃f : Float R⦄ where
  abbrev pub settings_of : State R → String → Settings R
  settings_of s date = record {
    rank_start = value_or s.rank_start 1;
    rank_end = value_or s.rank_end (value_or s.top_n 10);
    holds_on_promotion = is_text s.upper_exit_mode "hold_on_promotion";
    rank_buffer = value_or s.exit_rank_buffer 2;
    confirm_days = value_or s.exit_confirm_days 2;
    split_days = value_or s.sell_split_days 5;
    by_amount = is_text s.cycle_alloc_mode "target_amount";
    target_krw = value_or s.cycle_target_krw (f.of_ℕ 300_000);
    recycles = is_text s.sell_proceeds_mode "recycle_to_budget";
    group_no = value_or s.last_group_no 0 + 1;
    date = date;
  }

module _ {R : Type 0} where
  abbrev pub ranked_of : Item R → Ranked R
  ranked_of i = record { code = i.code; rank = i.rank; price = some i.price }

  -- `{item["code"]: item["rank"] for item in master_items}`
  abbrev pub ranks : List (Ranked R) → Dict String ℕ → Dict String ℕ
  ranks [] d = d
  ranks (i ∷ is) d = ranks is (insert i.code i.rank d)

  -- The prices of the lists, where the caller has given none.
  abbrev pub fill_prices : List (Ranked R) → Dict String R → Dict String R
  fill_prices [] d = d
  fill_prices (i ∷ is) d =
      fill_prices is
        (if contains i.code d then d else elim i.price [ none ↦ d | some p ↦ insert i.code p d ])

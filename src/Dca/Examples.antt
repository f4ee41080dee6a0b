-- ===== src/Dca/Examples.antt =====
-- The theorems on the schedules at a concrete one, with a calendar whose dates are numbers of days,
-- in months of 30 days.
use supabot.Base.{
  [], arith, false, leb, none, refl, some, string_eq, true, ℕ, ◌%◌, ◌*◌, ◌+◌, ◌-◌, ◌/◌, ◌<◌, ◌∷◌,
  ◌≡◌, ◌⊎◌,
}
use supabot.Base.Int.{pos, pos_part, ℤ}
use supabot.Orders.Defs.{bid}
use supabot.Dca.Times.{Calendar, Timing, compute_next_run_at}
use supabot.Dca.Schedules.{Dca, Schedule, active, get_schedule}
use supabot.Dca.Lifetime.{run_at, runs_out}
use supabot.Dca.Later.{IsLater, IsOrdered, compute_next_run_at-IsLater}

abbrev pub days : Calendar ℤ ℕ
days = record {
  of_timestamp = pos_part;
  timestamp = pos;
  at_time = λ hour minute d. d;
  on_day = λ day d. d / 30 * 30 + (day - 1);
  on_date = λ y m day d. y * 360 + (m - 1) * 30 + (day - 1);
  add_days = λ n d. d + n;
  weekday = λ d. d % 7;
  year = λ d. d / 360;
  month = λ d. d % 360 / 30 + 1;
  last_day = λ year month. 30;
  is_not_after = leb;
}

abbrev pub twice : Schedule ℤ
twice = record {
  id = "dca_1";
  user_id = "ann";
  exchange = "upbit";
  ticker = "KRW-BTC";
  side = bid;
  timing = record {
    frequency = "daily";
    exec_time = none;
    days_of_week = none;
    day_of_month = none;
  };
  amount_type = "krw";
  amount = pos 10_000;
  max_runs = some (pos 2);
  run_count = 0;
  next_run_at = pos 1;
  last_run_at = none;
  status = active;
  group_no = some 4;
  created_at = pos 0;
  order_type = "limit";
  carryover_mode = "skip";
  template_id = none;
  is_carryover = false;
  carryover_reason = none;
}

abbrev manager : Dca ℤ
manager = record { schedules = twice ∷ []; fail_counts = λ id. 0 }

runs_out_example :
    ((2 < 2)
      × ((s' : Schedule ℤ) × (get_schedule "dca_1" none
              (run_at days "dca_1" (pos 1 ∷ pos 2 ∷ []) manager)
            ≡ some s')
          × (s'.run_count ≡ 2)))
    ⊎ ((twice.run_count + 2 ≡ 2)
        × (get_schedule "dca_1" none (run_at days "dca_1" (pos 1 ∷ pos 2 ∷ []) manager) ≡ none))
runs_out_example =
    runs_out days "dca_1" (pos 1 ∷ pos 2 ∷ []) manager twice 2 (unfold get_schedule in refl) refl
      refl (omega arith) (omega arith)

days-IsOrdered : IsOrdered days
days-IsOrdered = record {
  day_after = λ h m now. ground arith;
  later_day = λ h m n now. ground arith;
  later_month = λ y m d candidate now later. ground (arith, later);
}

abbrev on_mondays : Timing
on_mondays = record {
  frequency = "weekly";
  exec_time = some (9, 0);
  days_of_week = some (0 ∷ []);
  day_of_month = none;
}

compute_next_run_at-IsLater_example : IsLater days 3 (pos 7)
compute_next_run_at-IsLater_example =
    compute_next_run_at-IsLater days days-IsOrdered on_mondays (pos 3) true (pos 7)
      (unfold compute_next_run_at in refl)

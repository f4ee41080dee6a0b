-- ===== src/Dca/Shortages.antt =====
-- The theorems on the cash at concrete schedules and reports.
use supabot.Base.{List, String, [], false, map, nat_eq, none, refl, some, string_eq, true, ◌∷◌, ◌≡◌}
use supabot.Dca.Warned.{
  CashCheck, Says, cash_report-Says, sum, tells, told_once, waiting_cost, week_cost,
}
use supabot.Dca.Alerts.{CashMemory, check_user}
use supabot.Dca.Cash.{CashReport, cash_report, run_cost, runs_in_next_7_days, warn_weekly}
use supabot.Dca.Schedules.{Schedule}
use supabot.Dca.Examples.{twice}
use supabot.Base.Float.{int_float}
use supabot.Base.Int.{pos, ℤ, ◌*ℤ◌, ◌+ℤ◌, ◌-ℤ◌, ◌≤ℤ◌}
use supabot.Orders.Defs.{Order}
use supabot.Orders.Manager.{new_order}
use supabot.Orders.Examples.{bought}

abbrev daily_buy : Schedule ℤ
daily_buy = record twice { amount_type = "budget" }

-- A waiting purchase of three at 2,000 won.
abbrev waiting : Order ℤ
waiting = record (new_order bought (pos 0)) {
  exchange = "upbit";
  price = pos 2_000;
  volume = pos 3;
}

-- Ten thousand won a day for at most two days, with the waiting purchase, and 15,000 won at hand.
cash_report-Says_example :
    let price : String → ℤ = λ ticker. pos 0 in
    let r = cash_report "upbit" (pos 15_000) price (daily_buy ∷ []) (waiting ∷ []) in
    (r.next_required_krw
      ≡ sum (map (run_cost price) (daily_buy ∷ [])) +ℤ sum (map waiting_cost (waiting ∷ [])))
    × (r.weekly_required_krw
        ≡ sum (map (week_cost price) (daily_buy ∷ [])) +ℤ sum (map waiting_cost (waiting ∷ [])))
    × Says r.status r.next_required_krw r.weekly_required_krw (pos 15_000)
    × (r.next_required_krw ≤ℤ pos 15_000 +ℤ r.shortfall_next_krw)
    × (r.weekly_required_krw ≤ℤ pos 15_000 +ℤ r.shortfall_weekly_krw)
cash_report-Says_example =
    cash_report-Says "upbit" (pos 15_000) (λ ticker. pos 0) (daily_buy ∷ []) (waiting ∷ [])

abbrev low : CashReport ℤ
low = record {
  exchange = "upbit";
  available_cash = pos 15_000;
  next_required_krw = pos 10_000;
  weekly_required_krw = pos 20_000;
  shortfall_next_krw = pos 0;
  shortfall_weekly_krw = pos 5_000;
  estimated_runs_left = some (pos 1);
  schedules_count = 1;
  reserved_orders_count = 0;
  status = warn_weekly;
}

low_found : cash_report "upbit" (pos 15_000) (λ ticker. pos 0) (daily_buy ∷ []) [] ≡ low
unfolding cash_report runs_in_next_7_days ◌+ℤ◌ ◌-ℤ◌ ◌*ℤ◌
low_found = refl

abbrev fresh : CashMemory
fresh = record { alert_sent = λ user ex. none; last_checked = λ user. 0 }

abbrev again : List (CashCheck ℤ)
again =
    record { user_id = "bob"; time = 10; is_forced = true; reports = low ∷ [] }
    ∷ record { user_id = "ann"; time = 20; is_forced = true; reports = low ∷ [] }
    ∷ []

told_once_example :
    tells "2026-01-05" "ann" "upbit" again (check_user "ann" "2026-01-05" 5 true (low ∷ []) fresh).1
    ≡ false
told_once_example =
    told_once "2026-01-05" "ann" "upbit" 5 true (low ∷ []) fresh again (unfold check_user in refl)

-- The next day it is told again.
told_next_day :
    (check_user "ann" "2026-01-06" 30 true
      (low ∷ [])
      (check_user "ann" "2026-01-05" 5 true (low ∷ []) fresh).1).0
    ≡ low ∷ []
unfolding check_user
told_next_day = refl

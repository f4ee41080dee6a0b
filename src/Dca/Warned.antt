-- ===== src/Dca/Warned.antt =====
-- What a report on the cash says, and how often it is told.
use supabot.Base.{
  ==_iff, ==_self, Bool, Bool-cases, List, Option, String, [], any, ap, arith, false, filter,
  if_both, if◌then◌else◌, inl, inr, ltb, map, nat_eq, not, refl, string_eq, sym, true, ℕ, ◌&&◌, ◌-◌,
  ◌==◌, ◌||◌, ◌∙◌, ◌∷◌, ◌≡◌,
}
use supabot.Gate.Defs.{is_us_stock_ticker}
use supabot.Dca.Alerts.{
  CashMemory, cash_check_interval, check_user, is_due_alert, is_sent_on, remember_alert,
  remember_all,
}
use supabot.Dca.Cash.{
  CashReport, CashStatus, add_reserved, add_runs, cash_report, enough_cash, run_cost,
  runs_in_next_7_days, short_next, shortfall, status_of, warn_weekly,
}
use supabot.Dca.Schedules.{Schedule}
use supabot.Base.Short.{deposit_meets, enough, short_lt_iff}
use supabot.Base.Float.{int_float}
use supabot.Base.Int.{+ℤ_parts, eq_of_parts, ltb_ℤ, pos, ℤ, ◌*ℤ◌, ◌+ℤ◌, ◌≤ℤ◌}
use supabot.Orders.Defs.{Order}

-- What a status says of the cash and of what is needed for the next run and for the week.
abbrev pub Says : CashStatus → ℤ → ℤ → ℤ → Type 0
Says short_next next weekly cash = ltb_ℤ cash next ≡ true
Says warn_weekly next weekly cash = (next ≤ℤ cash) × (ltb_ℤ cash weekly ≡ true)
Says enough_cash next weekly cash = (next ≤ℤ cash) × (weekly ≤ℤ cash)

status_of-Says :
    (next weekly cash : ℤ)
    → Says (status_of (shortfall next cash) (shortfall weekly cash)) next weekly cash
status_of-Says next weekly cash =
    rw (short_lt_iff next cash, short_lt_iff weekly cash)
      (elim (Bool-cases (ltb_ℤ cash next)) [
        | inl short ↦ rw short short
        | inr paid ↦ rw paid (elim (Bool-cases (ltb_ℤ cash weekly)) [
          | inl later ↦ rw later (enough next cash paid, later)
          | inr all_paid ↦ rw all_paid (enough next cash paid, enough weekly cash all_paid)
        ])
      ])

abbrev pub sum : List ℤ → ℤ
sum [] = pos 0
sum (x ∷ xs) = x +ℤ sum xs

-- What a waiting order costs, in won.
abbrev pub waiting_cost : Order ℤ → ℤ
waiting_cost o =
    if is_us_stock_ticker o.exchange o.ticker
    then o.price *ℤ o.volume *ℤ pos 1_380
    else o.price *ℤ o.volume

-- What the schedule costs in a week.
abbrev pub week_cost : (String → ℤ) → Schedule ℤ → ℤ
week_cost price s = run_cost price s *ℤ pos (runs_in_next_7_days s)

add_twice : (a x s : ℤ) → a +ℤ x +ℤ s ≡ a +ℤ (x +ℤ s)
add_twice a x s =
    eq_of_parts (a +ℤ x +ℤ s) (a +ℤ (x +ℤ s))
      (omega (arith, +ℤ_parts (a +ℤ x) s, +ℤ_parts a x, +ℤ_parts a (x +ℤ s), +ℤ_parts x s))

add_nothing : (a : ℤ) → a +ℤ pos 0 ≡ a
add_nothing a = eq_of_parts (a +ℤ pos 0) a (omega (arith, +ℤ_parts a (pos 0)))

from_nothing : (a : ℤ) → pos 0 +ℤ a ≡ a
from_nothing a = eq_of_parts (pos 0 +ℤ a) a (omega (arith, +ℤ_parts (pos 0) a))

add_runs-sum :
    (price : String → ℤ) (next weekly : ℤ) (schedules : List (Schedule ℤ))
    → add_runs price (next, weekly) schedules ≡ (
      next +ℤ sum (map (run_cost price) schedules),
      weekly +ℤ sum (map (week_cost price) schedules),
    )
add_runs-sum price next weekly [] = rw (add_nothing next, add_nothing weekly) refl
add_runs-sum price next weekly (s ∷ rest) =
    add_runs-sum price (next +ℤ run_cost price s) (weekly +ℤ week_cost price s) rest
    ∙ rw
        (
          add_twice next (run_cost price s) (sum (map (run_cost price) rest)),
          add_twice weekly (week_cost price s) (sum (map (week_cost price) rest)),
        )
        refl

add_reserved-sum :
    (kept : ℤ) (orders : List (Order ℤ))
    → add_reserved kept orders ≡ kept +ℤ sum (map waiting_cost orders)
add_reserved-sum kept [] = sym (add_nothing kept)
add_reserved-sum kept (o ∷ rest) =
    add_reserved-sum (kept +ℤ waiting_cost o) rest
    ∙ add_twice kept (waiting_cost o) (sum (map waiting_cost rest))

-- On whole amounts, what a report says is needed for the next runs is what one run of each schedule
-- costs, with the cost of all the waiting orders; for the week it is each schedule's cost as often as
-- it runs, again with the waiting orders. The status says exactly how the cash stands: less than the
-- next runs and the waiting orders need, enough for them but not for the week, or enough for both; and
-- with the deposit that the report names for one of them the cash meets it.
pub cash_report-Says :
    (ex : String) (cash : ℤ) (price : String → ℤ) (schedules : List (Schedule ℤ))
    (orders : List (Order ℤ))
    → let r = cash_report ex cash price schedules orders in
      (r.next_required_krw ≡ sum (map (run_cost price) schedules) +ℤ sum (map waiting_cost orders))
      × (r.weekly_required_krw
          ≡ sum (map (week_cost price) schedules) +ℤ sum (map waiting_cost orders))
      × Says r.status r.next_required_krw r.weekly_required_krw cash
      × (r.next_required_krw ≤ℤ cash +ℤ r.shortfall_next_krw)
      × (r.weekly_required_krw ≤ℤ cash +ℤ r.shortfall_weekly_krw)
unfolding cash_report
cash_report-Says ex cash price schedules orders =
    let runs = add_runs-sum price (pos 0) (pos 0) schedules in
    let kept = add_reserved-sum (pos 0) orders ∙ from_nothing (sum (map waiting_cost orders)) in
    (
      rw (runs, kept, from_nothing (sum (map (run_cost price) schedules))) refl,
      rw (runs, kept, from_nothing (sum (map (week_cost price) schedules))) refl,
      status_of-Says _ _ cash,
      deposit_meets _ cash,
      deposit_meets _ cash,
    )

-- A check of one user on a day.
pub record CashCheck (R : Type 0) : Type 0 where
  pub user_id : String
  pub time : ℕ
  pub is_forced : Bool
  pub reports : List (CashReport R)

module _ (day : String) where
  -- The user was told of the exchange on the day.
  abbrev IsSent : String → String → (String → String → Option String) → Type 0
  IsSent user ex sent = is_sent_on day (sent user ex) ≡ true

  remember_alert-IsSent :
      (u e user ex : String) (sent : String → String → Option String)
      → IsSent user ex sent
      → IsSent user ex (remember_alert u e day sent)
  remember_alert-IsSent u e user ex sent h = elim (Bool-cases (u == user && e == ex)) [
    | inl here ↦ rw here (==_self day)
    | inr there ↦ rw there h
  ]

module _ {R : Type 0} (day : String) where
  -- Whether the checks tell the user of the exchange.
  pub tells : String → String → List (CashCheck R) → CashMemory → Bool
  unfolding check_user
  tells user ex [] m = false
  tells user ex (c ∷ rest) m =
      let (told, m') = check_user c.user_id day c.time c.is_forced c.reports m in
      c.user_id == user && any (λ r. r.exchange == ex) told || tells user ex rest m'

  remember_all-IsSent :
      (u user ex : String) (due : List (CashReport R)) (sent : String → String → Option String)
      → IsSent day user ex sent
      → IsSent day user ex (remember_all u day due sent)
  remember_all-IsSent u user ex [] sent h = h
  remember_all-IsSent u user ex (r ∷ due) sent h =
      remember_all-IsSent u user ex due (remember_alert u r.exchange day sent)
        (remember_alert-IsSent day u r.exchange user ex sent h)

  remember_all-told :
      (user ex : String) (due : List (CashReport R)) (sent : String → String → Option String)
      → any (λ r. r.exchange == ex) due ≡ true
      → IsSent day user ex (remember_all user day due sent)
  remember_all-told user ex [] sent h = cc
  remember_all-told user ex (r ∷ due) sent h = elim (Bool-cases (r.exchange == ex)) [
    | inl here ↦
        remember_all-IsSent user user ex due (remember_alert user r.exchange day sent)
          (rw (==_self user, here) (==_self day))
    | inr there ↦
        remember_all-told user ex due (remember_alert user r.exchange day sent) (rw there at h)
  ]

  sent_not_due :
      (user ex : String) (reports : List (CashReport R)) (sent : String → String → Option String)
      → IsSent day user ex sent
      → any (λ r. r.exchange == ex) (filter (is_due_alert user day sent) reports) ≡ false
  sent_not_due user ex [] sent h = refl
  sent_not_due user ex (r ∷ reports) sent h = elim (Bool-cases (r.exchange == ex)) [
    | inl here ↦
        let told : is_sent_on day (sent user r.exchange) ≡ true =
          ap (λ x. is_sent_on day (sent user x)) ((==_iff r.exchange ex).0 here) ∙ h in
        let dropped : is_due_alert user day sent r ≡ false = ground (arith, told) in
        rw dropped (sent_not_due user ex reports sent h)
    | inr there ↦
        let rest = sent_not_due user ex reports sent h in
        if_both (λ rs. any (λ x. x.exchange == ex) rs ≡ false) (is_due_alert user day sent r) _ _
          (rw there rest) rest
  ]

  -- What a check of the user tells, and what is known of the day after it.
  module _ (user : String) (now : ℕ) (is_forced : Bool) (reports : List (CashReport R))
      (m : CashMemory) where
    abbrev result : List (CashReport R) × CashMemory
    result = check_user user day now is_forced reports m

    abbrev is_early : Bool
    is_early = not is_forced && ltb (now - m.last_checked user) cash_check_interval

    abbrev told_now : List (CashReport R) × CashMemory
    told_now =
        let due = filter (is_due_alert user day m.alert_sent) reports in
        (
          due,
          record {
            alert_sent = remember_all user day due m.alert_sent;
            last_checked = λ u. if user == u then now else m.last_checked u;
          },
        )

    check_user-keeps :
        (u ex : String) → IsSent day u ex m.alert_sent → IsSent day u ex result.1.alert_sent
    unfolding check_user
    check_user-keeps u ex h =
        if_both (λ (r : List (CashReport R) × CashMemory). IsSent day u ex r.1.alert_sent) is_early
          ([], m) told_now h
          (remember_all-IsSent user u ex (filter (is_due_alert user day m.alert_sent) reports)
            m.alert_sent h)

    check_user-silent :
        (ex : String)
        → IsSent day user ex m.alert_sent
        → any (λ r. r.exchange == ex) result.0 ≡ false
    unfolding check_user
    check_user-silent ex h =
        if_both (λ (r : List (CashReport R) × CashMemory). any (λ x. x.exchange == ex) r.0 ≡ false)
          is_early ([], m) told_now refl (sent_not_due user ex reports m.alert_sent h)

    check_user-tells :
        (ex : String)
        → any (λ r. r.exchange == ex) result.0 ≡ true
        → IsSent day user ex result.1.alert_sent
    unfolding check_user
    check_user-tells ex =
        if_both
          (λ (r : List (CashReport R) × CashMemory).
            any (λ x. x.exchange == ex) r.0 ≡ true → IsSent day user ex r.1.alert_sent)
          is_early ([], m) told_now (λ none_told. cc none_told)
          (remember_all-told user ex (filter (is_due_alert user day m.alert_sent) reports)
            m.alert_sent)

  tells-IsSent :
      (user ex : String) (checks : List (CashCheck R)) (m : CashMemory)
      → IsSent day user ex m.alert_sent
      → tells user ex checks m ≡ false
  unfolding tells
  tells-IsSent user ex [] m h = refl
  tells-IsSent user ex (c ∷ rest) m h =
      let m' = (check_user c.user_id day c.time c.is_forced c.reports m).1 in
      let later =
        tells-IsSent user ex rest m'
          (check_user-keeps c.user_id c.time c.is_forced c.reports m user ex h) in
      elim (Bool-cases (c.user_id == user)) [
        | inr other ↦ rw other later
        | inl same ↦
            let silent =
              check_user-silent c.user_id c.time c.is_forced c.reports m ex (
                ap (λ u. is_sent_on day (m.alert_sent u ex)) ((==_iff c.user_id user).0 same)
                ∙ h) in
            rw (same, silent) later
      ]

  -- Once a check has told a user of an exchange, no later check of the same day tells the user of it
  -- again, whatever the reports of the later checks are, for whatever users, and whether the
  -- time between them counts or not.
  pub told_once :
      (user ex : String) (now : ℕ) (is_forced : Bool) (reports : List (CashReport R))
      (m : CashMemory) (later : List (CashCheck R))
      → any (λ r. r.exchange == ex) (check_user user day now is_forced reports m).0 ≡ true
      → tells user ex later (check_user user day now is_forced reports m).1 ≡ false
  told_once user ex now is_forced reports m later told =
      tells-IsSent user ex later (check_user user day now is_forced reports m).1
        (check_user-tells user now is_forced reports m ex told)

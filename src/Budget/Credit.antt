-- ===== src/Budget/Credit.antt =====
-- The credit of a day: once a day, and within the budget of the month.
use supabot.Base.{
  ==_self, Bool-cases, List, Option, String, arith, inl, inr, refl, string_eq, subst, true, ℕ, ◌==◌,
  ◌≡◌, ◌⊎◌,
}
use supabot.Base.Float.{Float, int_float}
use supabot.Base.Int.{+ℤ_parts, -ℤ_parts, eq_of_parts, ltb_ℤ, pos, ℤ, ◌+ℤ◌, ◌-ℤ◌, ◌≤ℤ◌}
use supabot.Budget.Defs.{Book, Entry, Params, Template, set_text, value_or}
use supabot.Budget.Plan.{
  Dates, calculate_remaining_trading_days, carryover_of, compute_daily_allowance, daily_fixed_of,
  mode_of, plan_budget, positive, spent_of,
}
use supabot.Budget.Ledger.{
  credit, credit_allowance, credit_daily_allowance, is_credited, month_of, roll_month, same_month,
}
use supabot.Budget.Audit.{carryover-roll_month}

module _ {R D : Type 0} ⦃f : Float R⦄ (insert : Entry R → List (Entry R) → List (Entry R))
    (ds : Dates D) (today : String) (t : Template R) where
  -- A second credit for the same day, whatever its number of days and group, gives nothing and
  -- changes nothing: neither the budget nor the ledger.
  pub credit_once :
      (date : Option String) (days days' group group' : Option ℕ) (b : Book R)
      → let b' = (credit_daily_allowance insert ds today t date days group b).1 in
        credit_daily_allowance insert ds today t date days' group' b' ≡ (f.of_ℕ 0, b')
  unfolding credit_daily_allowance
  credit_once date days days' group group' b =
      elim (Bool-cases (is_credited b.params.allowance_credited_date (set_text date today))) [
        | inl done ↦ rw (done, done) refl
        | inr due ↦ rw due (elim (Bool-cases (mode_of t b.params == "total")) [
          | inl total ↦ rw (total, due, total) refl
          | inr other ↦ rw (other, ==_self (set_text date today)) refl
        ])
      ]

allowance_bounds :
    (mode : String) (monthly fixed spent carryover : ℤ) (days : ℕ)
    → ltb_ℤ (pos 0) monthly ≡ true
    → let a = compute_daily_allowance mode monthly fixed spent carryover days in
      (pos 0 ≤ℤ a) × (a ≤ℤ positive (monthly -ℤ spent -ℤ carryover))
unfolding compute_daily_allowance
allowance_bounds mode monthly fixed spent carryover days h = ground arith

plan_budget-roll_month :
    (t : Template ℤ) (date : String) (p : Params ℤ)
    → plan_budget t (roll_month date p) ≡ plan_budget t p
plan_budget-roll_month t date p = elim (Bool-cases (same_month p.current_month (month_of date))) [
  | inl same ↦ rw same refl
  | inr other ↦ rw other refl
]

-- An amount that is no more than what the month has left keeps the month within its budget.
within : (m s c a : ℤ) → a ≤ℤ positive (m -ℤ s -ℤ c) → (a ≤ℤ pos 0) ⊎ (c +ℤ a +ℤ s ≤ℤ m)
within m s c a h =
    ground (arith, -ℤ_parts m s, -ℤ_parts (m -ℤ s) c, +ℤ_parts c a, +ℤ_parts (c +ℤ a) s)

abbrev pub IsWithin : ℤ → Params ℤ → ℤ → Params ℤ → Type 0
IsWithin budget before a after =
    (pos 0 ≤ℤ a)
    × (carryover_of after ≡ carryover_of before +ℤ a)
    × ((a ≤ℤ pos 0) ⊎ (carryover_of after +ℤ spent_of after ≤ℤ budget))

nothing_credited : (budget : ℤ) (p : Params ℤ) → IsWithin budget p (pos 0) p
nothing_credited budget p = (
  omega arith,
  eq_of_parts (carryover_of p) (carryover_of p +ℤ pos 0)
      (omega (arith, +ℤ_parts (carryover_of p) (pos 0))),
  inl (omega arith),
)

module _ {D : Type 0} (insert : Entry ℤ → List (Entry ℤ) → List (Entry ℤ)) (ds : Dates D)
    (today : String) (t : Template ℤ) where
  credit_row-IsWithin :
      (date : String) (days : ℕ) (group : Option ℕ) (b : Book ℤ)
      → ltb_ℤ (pos 0) (plan_budget t b.params) ≡ true
      → let r = credit insert t date days group b in
        IsWithin (plan_budget t b.params) b.params r.0 r.1.params
  credit_row-IsWithin date days group b h =
      let p = roll_month date b.params in
      let bounds =
        allowance_bounds (mode_of t p) (plan_budget t p) (daily_fixed_of p) (spent_of p)
          (carryover_of p) days (rw (plan_budget-roll_month t date b.params) h) in
      let bound = credit_allowance t p days in
      (
        bounds.0,
        rw (carryover-roll_month date b.params) refl,
        subst (λ m. (bound ≤ℤ pos 0) ⊎ (carryover_of p +ℤ bound +ℤ spent_of p ≤ℤ m))
            (plan_budget-roll_month t date b.params)
            (within (plan_budget t p) (spent_of p) (carryover_of p) bound bounds.1),
      )

  -- On whole amounts and with a positive budget of the month, whatever the mode: a credit is never
  -- negative, it is added to the balance, and unless it is nothing the balance with what
  -- the month has spent stays within the budget of the month.
  pub credit-IsWithin :
      (date : Option String) (days group : Option ℕ) (b : Book ℤ)
      → ltb_ℤ (pos 0) (plan_budget t b.params) ≡ true
      → let r = credit_daily_allowance insert ds today t date days group b in
        IsWithin (plan_budget t b.params) b.params r.0 r.1.params
  unfolding credit_daily_allowance
  credit-IsWithin date days group b h =
      elim (Bool-cases (is_credited b.params.allowance_credited_date (set_text date today))) [
        | inl done ↦ rw done (nothing_credited (plan_budget t b.params) b.params)
        | inr due ↦ rw due (elim (Bool-cases (mode_of t b.params == "total")) [
          | inl total ↦ rw total (nothing_credited (plan_budget t b.params) b.params)
          | inr other ↦ rw other (
              credit_row-IsWithin (set_text date today)
                (value_or days (calculate_remaining_trading_days ds (set_text date today))) group b
                h)
        ])
      ]

-- ===== src/Budget/Solvent.antt =====
-- The report of an exchange's budgets against its cash, on whole amounts.
-- What a grade says of the cash and of what is needed for today and for the month.
use supabot.Base.{
  Bool, Bool-cases, List, Option, String, false, if◌then◌else◌, inl, inr, none, refl, some,
  string_eq, true, ℕ, ◌≡◌,
}
use supabot.Base.Short.{deposit_meets, enough, short_iff}
use supabot.Base.Float.{int_float}
use supabot.Base.Int.{ltb_ℤ, pos, ℤ, ◌+ℤ◌, ◌≤ℤ◌}
use supabot.Budget.Defs.{Params, Template}
use supabot.Budget.Health.{
  Grade, Health, check_exchange_budget_health, graded, healthy, shortage, unknown, warning,
}

abbrev pub Means : Grade → ℤ → ℤ → Option ℤ → Type 0
Means unknown daily monthly cash = cash ≡ none
Means shortage daily monthly cash = (c : ℤ) × (cash ≡ some c) × (ltb_ℤ c daily ≡ true)
Means warning daily monthly cash =
    (c : ℤ) × (cash ≡ some c) × (daily ≤ℤ c) × (ltb_ℤ c monthly ≡ true)
Means healthy daily monthly cash = (c : ℤ) × (cash ≡ some c) × (daily ≤ℤ c) × (monthly ≤ℤ c)

graded-Means :
    (daily monthly : ℤ) (cash : Option ℤ) → Means (graded daily monthly cash).0 daily monthly cash
graded-Means daily monthly none = refl
graded-Means daily monthly (some c) =
    rw (short_iff daily c, short_iff monthly c)
      (elim (Bool-cases (ltb_ℤ c daily)) [
        | inl short ↦ rw short (c, refl, short)
        | inr paid ↦ rw paid (elim (Bool-cases (ltb_ℤ c monthly)) [
          | inl later ↦ rw later (c, refl, enough daily c paid, later)
          | inr all_paid ↦ rw all_paid (c, refl, enough daily c paid, enough monthly c all_paid)
        ])
      ])

-- The deposits that a report names: with them the cash meets both needs; none if it is not known.
abbrev pub Deposits : Option ℤ → Health ℤ → Type 0
Deposits none h = (h.daily_deposit_needed_krw ≡ pos 0) × (h.monthly_deposit_needed_krw ≡ pos 0)
Deposits (some c) h =
    (h.daily_required_krw ≤ℤ c +ℤ h.daily_deposit_needed_krw)
    × (h.monthly_remaining_required_krw ≤ℤ c +ℤ h.monthly_deposit_needed_krw)

-- On whole amounts, a report's grade says exactly how the cash stands: not known, less than today's
-- needs, enough for today but not for the month, or enough for both. The deposits that it
-- names make up what is missing, and are nothing where the cash is not known.
pub health-Means :
    (ex : String) (templates : List (Template ℤ × Params ℤ)) (cash : Option ℤ) (is_available : Bool)
    (days : ℕ)
    → let h = check_exchange_budget_health ex templates cash is_available days in
      let known = (if is_available then cash else none) in
      Means h.health_grade h.daily_required_krw h.monthly_remaining_required_krw known
      × Deposits known h
unfolding check_exchange_budget_health
health-Means ex templates (some c) true days =
    (graded-Means _ _ (some c), (deposit_meets _ c, deposit_meets _ c))
health-Means ex templates none true days = (refl, (refl, refl))
health-Means ex templates cash false days = (refl, (refl, refl))

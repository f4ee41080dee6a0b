-- ===== src/Budget/Identity.antt =====
-- Every operation keeps the balance and the ledger in step: the changes of a plan, and whole runs.
use supabot.Base.{
  Bool, Bool-cases, List, String, [], arith, false, if◌then◌else◌, inl, inr, none, refl, some,
  string_eq, true, ℕ, ◌&&◌, ◌==◌, ◌∷◌, ◌≡◌,
}
use supabot.Base.Float.{fabs, fmin, int_float, is_zero}
use supabot.Base.Int.{+ℤ_parts, -ℤ_parts, eq_of_parts, leb_ℤ, ltb_ℤ, pos, ℤ, ◌+ℤ◌, ◌-ℤ◌, ◌≤ℤ◌}
use supabot.Budget.Defs.{Book, Entry, Template, plan_cap_adjust, plan_change_diff}
use supabot.Budget.Plan.{Dates, carryover_of, positive}
use supabot.Budget.Ledger.{is_credited, spend_for_buy}
use supabot.Budget.Change.{
  Config, Plans, apply_plan_change, freeze, plans_of, pool_change, pool_switch, rebalance,
  reset_budget_plan, today_change,
}
use supabot.Budget.Audit.{
  AllCovered, IsBalanced, IsCovered, Op, add_money, add_reset, add_row, balance_of, buy,
  change_plan, covered_spend, credit-IsBalanced, credit_day, is_reset, recycle-IsBalanced,
  refund-IsBalanced, refund_orders_of, run_op, run_ops, sell, spend-IsBalanced, start_over,
  today_diff, topup-IsBalanced,
}

covered_sum : (c d : ℤ) → pos 0 ≤ℤ c +ℤ d → positive (c +ℤ d) ≡ c +ℤ d
covered_sum c d h = ground arith

undo : (c : ℤ) → pos 0 ≡ c +ℤ (pos 0 -ℤ c)
undo c =
    ground
      (arith, +ℤ_parts c (pos 0 -ℤ c), -ℤ_parts (pos 0) c, eq_of_parts (pos 0) (c +ℤ (pos 0 -ℤ c)))

cut-le : (c d : ℤ) → fmin c (fabs d) ≤ℤ c
cut-le c d = ground arith

cut_pos :
    (c d : ℤ) → (ltb_ℤ d (pos 0) && ltb_ℤ (pos 0) c) ≡ true → ltb_ℤ (pos 0) (fmin c (fabs d)) ≡ true
cut_pos c d h = ground (arith, -ℤ_parts (pos 0) d)

over_is_zero : (c k : ℤ) → ltb_ℤ c k ≡ true → positive (c -ℤ k) ≡ pos 0
over_is_zero c k h = ground (arith, -ℤ_parts c k)

over_is_negative : (c k : ℤ) → ltb_ℤ c k ≡ true → ltb_ℤ (c +ℤ (pos 0 -ℤ k)) (pos 0) ≡ true
over_is_negative c k h = ground (arith, +ℤ_parts c (pos 0 -ℤ k), -ℤ_parts (pos 0) k)

is_change : (b : Bool) → is_reset (if b then plan_change_diff else plan_cap_adjust) ≡ false
is_change true = refl
is_change false = refl

module _ (o : ℤ) (insert : Entry ℤ → List (Entry ℤ) → List (Entry ℤ))
    (kept : (e : Entry ℤ) (l : List (Entry ℤ)) → insert e l ≡ e ∷ l) where
  pool_change-IsBalanced :
      (t : Template ℤ) (s : Plans ℤ) (c : ℤ) (l : List (Entry ℤ))
      → IsBalanced o c l
      → let r = pool_change insert t s (c, l) in IsBalanced o r.0 r.1
  pool_change-IsBalanced t s c l b =
      let diff = s.monthly -ℤ s.old_monthly in
      elim (Bool-cases (ltb_ℤ (pos 0) diff)) [
        | inl more ↦ rw more (add_row o insert kept _ c l b refl refl)
        | inr same ↦ rw same (elim (Bool-cases (ltb_ℤ diff (pos 0) && ltb_ℤ (pos 0) c)) [
          | inl less ↦
              rw (less, cut_pos c diff less)
                (add_row o insert kept _ c l b refl
                  (covered_spend c (fmin c (fabs diff)) (cut-le c diff)))
          | inr none_left ↦ rw none_left b
        ])
      ]

  pool_switch-IsBalanced :
      (t : Template ℤ) (s : Plans ℤ) (c : ℤ) (l : List (Entry ℤ))
      → IsBalanced o c l
      → let r = pool_switch insert t s (c, l) in IsBalanced o r.0 r.1
  pool_switch-IsBalanced t s c l b =
      elim (Bool-cases (ltb_ℤ (pos 0) (positive (s.monthly -ℤ s.spent -ℤ c)))) [
        | inl more ↦ rw more (add_row o insert kept _ c l b refl refl)
        | inr none_left ↦ rw none_left b
      ]

  today_change-IsBalanced :
      (t : Template ℤ) (s : Plans ℤ) (c : ℤ) (l : List (Entry ℤ))
      → pos 0 ≤ℤ c +ℤ today_diff t s c
      → IsBalanced o c l
      → let r = today_change insert t s (c, l) in IsBalanced o r.0 r.1
  today_change-IsBalanced t s c l covered b = elim (Bool-cases (is_zero (today_diff t s c))) [
    | inl same ↦ rw same b
    | inr other ↦ rw other (
        add_row o insert kept _ c l b (is_change (ltb_ℤ (pos 0) (today_diff t s c)))
          (covered_sum c (today_diff t s c) covered))
  ]

  freeze-IsBalanced :
      (t : Template ℤ) (s : Plans ℤ) (c : ℤ) (l : List (Entry ℤ))
      → IsBalanced o c l
      → let r = freeze insert t s (c, l) in IsBalanced o r.0 r.1
  freeze-IsBalanced t s c l b = elim (Bool-cases (s.mode == "monthly" && leb_ℤ s.monthly s.spent)) [
    | inl over ↦ rw over (elim (Bool-cases (ltb_ℤ (pos 0) c)) [
      | inl some_left ↦ rw some_left (add_row o insert kept _ c l b refl (undo c))
      | inr none_left ↦ rw none_left b
    ])
    | inr under ↦ rw under b
  ]

  rebalance-IsBalanced :
      (t : Template ℤ) (s : Plans ℤ) (apply_today is_credited_today : Bool) (c : ℤ)
      (l : List (Entry ℤ))
      → pos 0 ≤ℤ c +ℤ today_diff t s c
      → IsBalanced o c l
      → let r = rebalance insert t s apply_today is_credited_today (c, l) in IsBalanced o r.0 r.1
  rebalance-IsBalanced t s apply_today is_credited_today c l covered b =
      elim (Bool-cases (s.mode == "total")) [
        | inl total ↦ rw total (elim (Bool-cases (s.old_mode == "total")) [
          | inl still ↦ rw still (pool_change-IsBalanced t s c l b)
          | inr was_not ↦ rw was_not (elim (Bool-cases apply_today) [
            | inl now ↦ rw now (pool_switch-IsBalanced t s c l b)
            | inr later ↦ rw later b
          ])
        ])
        | inr other ↦ rw other (elim (Bool-cases (apply_today && is_credited_today)) [
          | inl now ↦ rw now (
              freeze-IsBalanced t s (today_change insert t s (c, l)).0
                (today_change insert t s (c, l)).1 (today_change-IsBalanced t s c l covered b))
          | inr later ↦ rw later (freeze-IsBalanced t s c l b)
        ])
      ]

  change-IsBalanced :
      (t : Template ℤ) (c : Config ℤ) (apply_today : Bool) (day : String) (days : ℕ) (b : Book ℤ)
      → pos 0
        ≤ℤ carryover_of b.params
          +ℤ today_diff t (plans_of t c days b.params) (carryover_of b.params)
      → IsBalanced o (carryover_of b.params) b.ledger
      → let b' = apply_plan_change insert t c apply_today day days b in
        IsBalanced o (carryover_of b'.params) b'.ledger
  unfolding apply_plan_change
  change-IsBalanced t c apply_today day days b covered h =
      rebalance-IsBalanced t (plans_of t c days b.params) apply_today
        (is_credited b.params.allowance_credited_date day) (carryover_of b.params) b.ledger covered
        h

  reset-IsBalanced :
      (t : Template ℤ) (c : Config ℤ) (initial : ℤ) (reset_cycle : Bool) (b : Book ℤ)
      → IsBalanced o (carryover_of b.params) b.ledger
      → let b' = (reset_budget_plan insert t c initial reset_cycle false false [] b).0 in
        IsBalanced o (carryover_of b'.params) b'.ledger
  unfolding reset_budget_plan
  reset-IsBalanced t c initial true b h =
      add_reset o insert kept _ (carryover_of b.params) b.ledger h refl refl
  reset-IsBalanced t c initial false b h =
      add_reset o insert kept _ (carryover_of b.params) b.ledger h refl refl

  run_op-IsBalanced :
      {D : Type 0} (ds : Dates D) (today : String) (t : Template ℤ) (op : Op) (b : Book ℤ)
      → IsCovered t op b.params
      → IsBalanced o (carryover_of b.params) b.ledger
      → IsBalanced o
          (carryover_of (run_op insert ds today t op b).params)
          (run_op insert ds today t op b).ledger
  unfolding run_op
  run_op-IsBalanced ds today t (credit_day date days group) b covered h =
      credit-IsBalanced o insert kept ds today t (some date) (some days) group b h
  run_op-IsBalanced ds today t (buy cost ticker group u) b covered h =
      spend-IsBalanced o insert kept t cost ticker group u b covered h
  run_op-IsBalanced ds today t (refund_orders_of os) b covered h =
      refund-IsBalanced o insert kept t os b h
  run_op-IsBalanced ds today t (sell proceeds ticker u group) b covered h =
      recycle-IsBalanced o insert kept t proceeds ticker u group b h
  run_op-IsBalanced ds today t (add_money amount) b covered h =
      topup-IsBalanced o insert kept t amount b h
  run_op-IsBalanced ds today t (change_plan c apply_today day days) b covered h =
      change-IsBalanced t c apply_today day days b covered h
  run_op-IsBalanced ds today t (start_over c initial reset_cycle) b covered h =
      reset-IsBalanced t c initial reset_cycle b h

  -- Over any run of the operations on whole amounts, in which no purchase costs more than the balance
  -- and no change of plan takes more than it, and with each row kept by the table: the balance stays
  -- what the rows of the ledger give, each row adding its amount and a new epoch starting from its
  -- own, and every row shows the balance after it.
  pub run_ops-IsBalanced :
      {D : Type 0} (ds : Dates D) (today : String) (t : Template ℤ) (ops : List Op) (b : Book ℤ)
      → AllCovered insert ds today t ops b
      → IsBalanced o (carryover_of b.params) b.ledger
      → IsBalanced o
          (carryover_of (run_ops insert ds today t ops b).params)
          (run_ops insert ds today t ops b).ledger
  run_ops-IsBalanced ds today t [] b covered h = h
  run_ops-IsBalanced ds today t (op ∷ ops) b covered h =
      run_ops-IsBalanced ds today t ops (run_op insert ds today t op b) covered.1
        (run_op-IsBalanced ds today t op b covered.0 h)

  -- A purchase that costs more than the balance, which is in step with the ledger: the balance after it is zero,
  -- while the rows of the ledger give less than zero, so the two are no longer in step.
  pub overdrawn_purchase :
      (t : Template ℤ) (cost : ℤ) (ticker : String) (group : ℕ) (u : String) (b : Book ℤ)
      → IsBalanced o (carryover_of b.params) b.ledger
      → ltb_ℤ (carryover_of b.params) cost ≡ true
      → let b' = (spend_for_buy insert t cost ticker group u none none true b).1 in
        (carryover_of b'.params ≡ pos 0) × (ltb_ℤ (balance_of o b'.ledger) (pos 0) ≡ true)
  unfolding spend_for_buy
  overdrawn_purchase t cost ticker group u b h over =
      let c = carryover_of b.params in
      (over_is_zero c cost over, rw (kept _ b.ledger, ← h.0) (over_is_negative c cost over))

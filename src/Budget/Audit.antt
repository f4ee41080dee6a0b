-- ===== src/Budget/Audit.antt =====
-- The balance of a budget against its ledger, on whole amounts, over runs of the operations.
-- A new epoch starts from its own amount.
use supabot.Base.{
  Bool, Bool-cases, List, Option, String, [], arith, false, if◌then◌else◌, inl, inr, ltb, none, not,
  refl, some, string_eq, true, ℕ, ◌==◌, ◌||◌, ◌∷◌, ◌≡◌,
}
use supabot.Base.Float.{int_float}
use supabot.Base.Int.{+ℤ_parts, -ℤ_parts, eq_of_parts, leb_ℤ, pos, ℤ, ◌+ℤ◌, ◌-ℤ◌, ◌≤ℤ◌}
use supabot.Budget.Defs.{
  Book, Entry, EntryType, Params, Pending, Template, reset, set_text, value_or,
}
use supabot.Budget.Plan.{
  Dates, calculate_remaining_trading_days, carryover_of, epoch_of, mode_of, positive, spent_of,
}
use supabot.Budget.Ledger.{
  credit, credit_daily_allowance, is_credited, is_recycling, manual_topup, month_of,
  recycle_sell_proceeds, refund_cancelled_orders, refund_of, refund_order, refund_orders,
  roll_month, same_month, spend_for_buy,
}
use supabot.Budget.Change.{
  Config, Plans, allowance_by, apply_plan_change, plans_of, reset_budget_plan,
}

abbrev pub is_reset : EntryType → Bool
is_reset reset = true
is_reset other = false

-- The balance by the rows alone, from an opening balance.
abbrev pub balance_of : ℤ → List (Entry ℤ) → ℤ
balance_of opening [] = opening
balance_of opening (e ∷ es) =
    if is_reset e.entry_type then e.delta_krw else balance_of opening es +ℤ e.delta_krw

-- Every row shows the balance that the rows up to it give.
abbrev pub IsAudited : ℤ → List (Entry ℤ) → Type 0
IsAudited opening [] = Unit
IsAudited opening (e ∷ es) =
    (e.balance_after_krw ≡ balance_of opening (e ∷ es)) × IsAudited opening es

abbrev pub IsBalanced : ℤ → ℤ → List (Entry ℤ) → Type 0
IsBalanced opening carryover ledger =
    (carryover ≡ balance_of opening ledger) × IsAudited opening ledger

pub data Op : Type 0 where
  credit_day : String → ℕ → Option ℕ → Op
  buy : ℤ → String → ℕ → String → Op
  refund_orders_of : List (Pending ℤ) → Op
  sell : ℤ → String → Option String → Option ℕ → Op
  add_money : ℤ → Op
  change_plan : Config ℤ → Bool → String → ℕ → Op
  start_over : Config ℤ → ℤ → Bool → Op

-- The change of today's allowance that a new plan brings.
abbrev pub today_diff : Template ℤ → Plans ℤ → ℤ → ℤ
today_diff t s carryover =
    allowance_by s.mode s.monthly s.fixed s carryover
    -ℤ allowance_by s.old_mode s.old_monthly s.old_fixed s carryover

-- A purchase that the balance pays for; a change of plan that takes no more than the balance.
abbrev pub IsCovered : Template ℤ → Op → Params ℤ → Type 0
IsCovered t (buy cost ticker group u) p = cost ≤ℤ carryover_of p
IsCovered t (change_plan c apply today days) p =
    pos 0 ≤ℤ carryover_of p +ℤ today_diff t (plans_of t c days p) (carryover_of p)
IsCovered t other p = Unit

module _ (insert : Entry ℤ → List (Entry ℤ) → List (Entry ℤ)) {D : Type 0} (ds : Dates D)
    (today : String) (t : Template ℤ) where
  unfoldable pub run_op : Op → Book ℤ → Book ℤ
  run_op (credit_day date days group) b =
      (credit_daily_allowance insert ds today t (some date) (some days) group b).1
  run_op (buy cost ticker group u) b =
      (spend_for_buy insert t cost ticker group u none none true b).1
  run_op (refund_orders_of os) b = refund_cancelled_orders insert t os b
  run_op (sell proceeds ticker u group) b = recycle_sell_proceeds insert t proceeds ticker u group b
  run_op (add_money amount) b = manual_topup insert t amount b
  run_op (change_plan c apply day days) b = apply_plan_change insert t c apply day days b
  run_op (start_over c initial reset_cycle) b =
      (reset_budget_plan insert t c initial reset_cycle false false [] b).0

  abbrev pub run_ops : List Op → Book ℤ → Book ℤ
  run_ops [] b = b
  run_ops (op ∷ ops) b = run_ops ops (run_op op b)

  abbrev pub AllCovered : List Op → Book ℤ → Type 0
  AllCovered [] b = Unit
  AllCovered (op ∷ ops) b = IsCovered t op b.params × AllCovered ops (run_op op b)

pub carryover-roll_month :
    (date : String) (p : Params ℤ) → carryover_of (roll_month date p) ≡ carryover_of p
carryover-roll_month date p = elim (Bool-cases (same_month p.current_month (month_of date))) [
  | inl same ↦ rw same refl
  | inr other ↦ rw other refl
]

pub covered_spend : (c k : ℤ) → k ≤ℤ c → positive (c -ℤ k) ≡ c +ℤ (pos 0 -ℤ k)
covered_spend c k h = ground (
  arith,
  +ℤ_parts c (pos 0 -ℤ k),
  -ℤ_parts (pos 0) k,
  -ℤ_parts c k,
  eq_of_parts (c -ℤ k) (c +ℤ (pos 0 -ℤ k)),
)

add_nothing : (c : ℤ) → c ≡ c +ℤ pos 0
add_nothing c = ground (arith, +ℤ_parts c (pos 0), eq_of_parts c (c +ℤ pos 0))

-- Each row is kept.
module _ (o : ℤ) (insert : Entry ℤ → List (Entry ℤ) → List (Entry ℤ))
    (kept : (e : Entry ℤ) (l : List (Entry ℤ)) → insert e l ≡ e ∷ l) where
  pub add_row :
      (e : Entry ℤ) (c : ℤ) (l : List (Entry ℤ))
      → IsBalanced o c l
      → is_reset e.entry_type ≡ false
      → e.balance_after_krw ≡ c +ℤ e.delta_krw
      → IsBalanced o e.balance_after_krw (insert e l)
  add_row e c l b not_reset sum = rw (kept e l, not_reset, sum, b.0) (refl, (refl, b.1))

  pub add_reset :
      (e : Entry ℤ) (c : ℤ) (l : List (Entry ℤ))
      → IsBalanced o c l
      → is_reset e.entry_type ≡ true
      → e.balance_after_krw ≡ e.delta_krw
      → IsBalanced o e.balance_after_krw (insert e l)
  add_reset e c l b restarts sum = rw (kept e l, restarts, sum) (refl, (refl, b.1))

  refund_order-IsBalanced :
      (t : Template ℤ) (p : Params ℤ) (pb : Pending ℤ) (c s : ℤ) (l : List (Entry ℤ))
      → IsBalanced o c l
      → IsBalanced o
          (refund_order insert t p pb (c, s, l)).0
          (refund_order insert t p pb (c, s, l)).2
  refund_order-IsBalanced t p pb c s l b = elim (Bool-cases (leb_ℤ (refund_of pb) (pos 0))) [
    | inl none_left ↦ rw none_left b
    | inr due ↦ rw due (elim (Bool-cases (ltb pb.budget_epoch (epoch_of p))) [
      | inl old ↦ rw old (add_row _ c l b refl (add_nothing c))
      | inr same ↦ rw same (add_row _ c l b refl refl)
    ])
  ]

  pub refund_orders-IsBalanced :
      (t : Template ℤ) (p : Params ℤ) (pbs : List (Pending ℤ)) (c s : ℤ) (l : List (Entry ℤ))
      → IsBalanced o c l
      → IsBalanced o
          (refund_orders insert t p pbs (c, s, l)).0
          (refund_orders insert t p pbs (c, s, l)).2
  refund_orders-IsBalanced t p [] c s l b = b
  refund_orders-IsBalanced t p (pb ∷ pbs) c s l b =
      refund_orders-IsBalanced t p pbs (refund_order insert t p pb (c, s, l)).0
        (refund_order insert t p pb (c, s, l)).1 (refund_order insert t p pb (c, s, l)).2
        (refund_order-IsBalanced t p pb c s l b)

  credit_row :
      (t : Template ℤ) (date : String) (days : ℕ) (group : Option ℕ) (b : Book ℤ)
      → IsBalanced o (carryover_of b.params) b.ledger
      → let b' = (credit insert t date days group b).1 in
        IsBalanced o (carryover_of b'.params) b'.ledger
  credit_row t date days group b h =
      add_row _ (carryover_of (roll_month date b.params)) b.ledger
        (rw (carryover-roll_month date b.params) h) refl refl

  pub credit-IsBalanced :
      {D : Type 0} (ds : Dates D) (today : String) (t : Template ℤ) (date : Option String)
      (days group : Option ℕ) (b : Book ℤ)
      → IsBalanced o (carryover_of b.params) b.ledger
      → let b' = (credit_daily_allowance insert ds today t date days group b).1 in
        IsBalanced o (carryover_of b'.params) b'.ledger
  unfolding credit_daily_allowance
  credit-IsBalanced ds today t date days group b h =
      elim (Bool-cases (is_credited b.params.allowance_credited_date (set_text date today))) [
        | inl done ↦ rw done h
        | inr due ↦ rw due (elim (Bool-cases (mode_of t b.params == "total")) [
          | inl total ↦ rw total h
          | inr other ↦ rw other (
              credit_row t (set_text date today)
                (value_or days (calculate_remaining_trading_days ds (set_text date today))) group b
                h)
        ])
      ]

  pub spend-IsBalanced :
      (t : Template ℤ) (cost : ℤ) (ticker : String) (group : ℕ) (u : String) (b : Book ℤ)
      → cost ≤ℤ carryover_of b.params
      → IsBalanced o (carryover_of b.params) b.ledger
      → let b' = (spend_for_buy insert t cost ticker group u none none true b).1 in
        IsBalanced o (carryover_of b'.params) b'.ledger
  unfolding spend_for_buy
  spend-IsBalanced t cost ticker group u b covered h =
      add_row _ (carryover_of b.params) b.ledger h refl
        (covered_spend (carryover_of b.params) cost covered)

  pub recycle-IsBalanced :
      (t : Template ℤ) (proceeds : ℤ) (ticker : String) (u : Option String) (group : Option ℕ)
      (b : Book ℤ)
      → IsBalanced o (carryover_of b.params) b.ledger
      → let b' = recycle_sell_proceeds insert t proceeds ticker u group b in
        IsBalanced o (carryover_of b'.params) b'.ledger
  unfolding recycle_sell_proceeds
  recycle-IsBalanced t proceeds ticker u group b h =
      elim (Bool-cases (not (is_recycling b.params) || leb_ℤ proceeds (pos 0))) [
        | inl skipped ↦ rw skipped h
        | inr taken ↦ rw taken (add_row _ (carryover_of b.params) b.ledger h refl refl)
      ]

  pub refund-IsBalanced :
      (t : Template ℤ) (pbs : List (Pending ℤ)) (b : Book ℤ)
      → IsBalanced o (carryover_of b.params) b.ledger
      → let b' = refund_cancelled_orders insert t pbs b in
        IsBalanced o (carryover_of b'.params) b'.ledger
  unfolding refund_cancelled_orders
  refund-IsBalanced t pbs b h =
      refund_orders-IsBalanced t b.params pbs (carryover_of b.params) (spent_of b.params) b.ledger h

  pub topup-IsBalanced :
      (t : Template ℤ) (amount : ℤ) (b : Book ℤ)
      → IsBalanced o (carryover_of b.params) b.ledger
      → let b' = manual_topup insert t amount b in IsBalanced o (carryover_of b'.params) b'.ledger
  unfolding manual_topup
  topup-IsBalanced t amount b h = add_row _ (carryover_of b.params) b.ledger h refl refl

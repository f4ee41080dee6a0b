-- ===== src/Budget/Ledger.antt =====
-- The operations that move money: a credit of the day, a purchase, a refund, proceeds of a sale, and
-- an amount that the user adds. `insert` is what the table of the database holds after the attempt
-- to add a row, whose failure is only logged.
use supabot.Base.{
  Bool, List, Option, String, [], false, if◌then◌else◌, ltb, none, not, some, string_eq, suc, zero,
  ℕ, ◌==◌, ◌||◌, ◌∷◌,
}
use supabot.Base.Float.{Float}
use supabot.Base.Text.{codes, same_codes}
use supabot.Budget.Defs.{
  Book, Entry, EntryType, Params, Pending, Template, buy_order_spend, daily_credit,
  ignored_prev_epoch, order_cancel_refund, sell_proceeds_recycle, set_text, topup, value_or,
}
use supabot.Budget.Plan.{
  Dates, calculate_remaining_trading_days, carryover_of, compute_daily_allowance, daily_fixed_of,
  epoch_of, mode_of, plan_budget, positive, revision_of, spent_of,
}

abbrev take_codes : ℕ → List ℕ → List ℕ
take_codes zero cs = []
take_codes (suc n) [] = []
take_codes (suc n) (c ∷ cs) = c ∷ take_codes n cs

-- `date_str[:7]`
abbrev pub month_of : String → List ℕ
month_of date = take_codes 7 (codes date)

abbrev pub same_month : Option (List ℕ) → List ℕ → Bool
same_month none m = false
same_month (some n) m = same_codes n m

abbrev pub is_credited : Option String → String → Bool
is_credited none date = false
is_credited (some d) date = d == date

module _ {R : Type 0} where
  abbrev pub is_recycling : Params R → Bool
  is_recycling p = elim p.sell_proceeds_mode [ none ↦ false | some m ↦ m == "recycle_to_budget" ]

module _ {R : Type 0} ⦃f : Float R⦄ where
  abbrev pub entry_of : Template R → ℕ → ℕ → EntryType → R → R → R → R → Entry R
  entry_of t epoch rev type delta balance spent remaining = record {
    user_id = t.user_id;
    template_id = t.id;
    budget_epoch = epoch;
    plan_revision_no = rev;
    group_no = none;
    credit_date = none;
    entry_type = type;
    delta_krw = delta;
    balance_after_krw = balance;
    monthly_spent_after_krw = spent;
    monthly_remaining_after_krw = remaining;
    ticker = none;
    order_uuid = none;
  }

  -- `max(0.0, monthly_budget - monthly_spent)`
  abbrev pub remaining_of : R → R → R
  remaining_of monthly spent = positive (f.sub monthly spent)

  -- The month has changed: nothing of it is spent yet.
  abbrev pub roll_month : String → Params R → Params R
  roll_month date p =
      if same_month p.current_month (month_of date)
      then p
      else record p { current_month = some (month_of date); monthly_spent = some (f.of_ℕ 0) }

  abbrev pub credit_allowance : Template R → Params R → ℕ → R
  credit_allowance t p days =
      compute_daily_allowance (mode_of t p) (plan_budget t p) (daily_fixed_of p) (spent_of p)
        (carryover_of p) days

  abbrev pub refund_of : Pending R → R
  refund_of o = f.mul o.price (positive (f.sub o.volume o.filled_volume))

module _ {R : Type 0} ⦃f : Float R⦄ (insert : Entry R → List (Entry R) → List (Entry R)) where
  abbrev pub record_ledger_entry : Entry R → Book R → Book R
  record_ledger_entry e b = record b { ledger = insert e b.ledger }

  abbrev pub credit : Template R → String → ℕ → Option ℕ → Book R → R × Book R
  credit t date days group b =
      let p = roll_month date b.params in
      let allowance = credit_allowance t p days in
      let carryover = f.add (carryover_of p) allowance in
      let entry =
        entry_of t (epoch_of p) (revision_of p) daily_credit allowance carryover (spent_of p)
          (remaining_of (plan_budget t p) (spent_of p)) in
      (
        allowance,
        record {
          params = record p {
            carryover_budget = some carryover;
            allowance_credited_date = some date;
          };
          ledger = insert (record entry { group_no = group; credit_date = some date }) b.ledger;
        },
      )

  -- The date and the number of trading days left; the caller may leave out either.
  unfoldable pub credit_daily_allowance :
      {D : Type 0}
      → Dates D
      → String
      → Template R
      → Option String
      → Option ℕ
      → Option ℕ
      → Book R
      → R × Book R
  unfolding calculate_remaining_trading_days compute_daily_allowance
  credit_daily_allowance ds today t date_str days group b =
      let date = set_text date_str today in
      let left = value_or days (calculate_remaining_trading_days ds date) in
      if is_credited b.params.allowance_credited_date date
      then (f.of_ℕ 0, b)
      else (if mode_of t b.params == "total" then (f.of_ℕ 0, b) else credit t date left group b)

  -- The balances before, when the caller has taken the cost off `params` already, and whether
  -- `params` is changed here. The balances after are the result.
  unfoldable pub spend_for_buy :
      Template R → R → String → ℕ → String → Option R → Option R → Bool → Book R → (R × R) × Book R
  spend_for_buy t cost ticker group uuid carryover_before spent_before mutate_params b =
      let carryover = positive (f.sub (value_or carryover_before (carryover_of b.params)) cost) in
      let spent = f.add (value_or spent_before (spent_of b.params)) cost in
      let entry =
        entry_of t (epoch_of b.params) (revision_of b.params) buy_order_spend
          (f.sub (f.of_ℕ 0) cost) carryover spent (remaining_of (plan_budget t b.params) spent) in
      let ledger =
        insert
          (record entry { group_no = some group; ticker = some ticker; order_uuid = some uuid })
          b.ledger in
      let kept = b.params in
      let params =
        (if mutate_params
          then record kept { carryover_budget = some carryover; monthly_spent = some spent }
          else kept) in
      ((carryover, spent), record { params = params; ledger = ledger })

  -- One cancelled order: the balance, the sum spent and the ledger go through the loop.
  abbrev pub refund_order :
      Template R → Params R → Pending R → R × R × List (Entry R) → R × R × List (Entry R)
  refund_order t p o (carryover, spent, ledger) =
      let refund = refund_of o in
      let left = positive (f.sub spent refund) in
      let row = λ (type : EntryType) (delta balance sum : R).
        record (entry_of t (epoch_of p) (revision_of p) type delta balance sum
          (remaining_of (plan_budget t p) sum)) {
            ticker = some o.ticker;
            order_uuid = some o.uuid;
          } in
      if f.le refund (f.of_ℕ 0)
      then (carryover, spent, ledger)
      else (if ltb o.budget_epoch (epoch_of p)
          then (carryover, spent, insert (row ignored_prev_epoch (f.of_ℕ 0) carryover spent) ledger)
          else (
            f.add carryover refund,
            left,
            insert
                (record (row order_cancel_refund refund (f.add carryover refund) left) {
                  group_no = o.group_no;
                })
                ledger,
          ))

  abbrev pub refund_orders :
      Template R → Params R → List (Pending R) → R × R × List (Entry R) → R × R × List (Entry R)
  refund_orders t p [] s = s
  refund_orders t p (o ∷ os) s = refund_orders t p os (refund_order t p o s)

  unfoldable pub refund_cancelled_orders : Template R → List (Pending R) → Book R → Book R
  refund_cancelled_orders t os b =
      let (carryover, spent, ledger) =
        refund_orders t b.params os (carryover_of b.params, spent_of b.params, b.ledger) in
      let p = b.params in
      record {
        params = record p { carryover_budget = some carryover; monthly_spent = some spent };
        ledger = ledger;
      }

  unfoldable pub recycle_sell_proceeds :
      Template R → R → String → Option String → Option ℕ → Book R → Book R
  recycle_sell_proceeds t proceeds ticker uuid group b =
      let p = b.params in
      let carryover = f.add (carryover_of p) proceeds in
      let entry =
        entry_of t (epoch_of p) (revision_of p) sell_proceeds_recycle proceeds carryover
          (spent_of p) (remaining_of (plan_budget t p) (spent_of p)) in
      if not (is_recycling p) || f.le proceeds (f.of_ℕ 0) then b else record {
        params = record p { carryover_budget = some carryover };
        ledger =
            insert (record entry { group_no = group; ticker = some ticker; order_uuid = uuid })
              b.ledger;
      }

  unfoldable pub manual_topup : Template R → R → Book R → Book R
  manual_topup t amount b =
      let p = b.params in
      let carryover = f.add (carryover_of p) amount in
      record {
        params = record p { carryover_budget = some carryover };
        ledger =
            insert
              (entry_of t (epoch_of p) (revision_of p) topup amount carryover (spent_of p)
                (remaining_of (plan_budget t p) (spent_of p)))
              b.ledger;
      }

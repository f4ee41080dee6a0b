-- ===== src/Budget/Defs.antt =====
-- The data of manager/backend/services/budget_manager.py: a row of the ledger, the budget fields of
-- a template's `params`, the columns of a template, and the rows of orders and trades it reads.
-- `none` is a key that is absent; an empty text is a text that a test takes for false.
use supabot.Base.{
  Bool, List, Option, String, [], any, if◌then◌else◌, length, none, some, string_eq, suc, zero, ℕ,
  ◌-◌, ◌==◌, ◌∷◌,
}

pub data EntryType : Type 0 where
  initial_credit daily_credit buy_order_spend order_cancel_refund ignored_prev_epoch : EntryType
  sell_proceeds_recycle plan_change_diff plan_cap_adjust topup reset : EntryType

-- A row of `budget_ledger`, without its description and the time of its creation.
pub record Entry (R : Type 0) : Type 0 where
  pub user_id : String
  pub template_id : ℕ
  pub budget_epoch : ℕ
  pub plan_revision_no : ℕ
  pub group_no : Option ℕ
  pub credit_date : Option String
  pub entry_type : EntryType
  pub delta_krw : R
  pub balance_after_krw : R
  pub monthly_spent_after_krw : R
  pub monthly_remaining_after_krw : R
  pub ticker : Option String
  pub order_uuid : Option String

-- A member of `budget_plan_revisions`, without its time and memo.
pub record Revision (R : Type 0) : Type 0 where
  pub revision_no : ℕ
  pub epoch : ℕ
  pub mode : String
  pub monthly : R
  pub daily_fixed : R
  pub daily_allowance_est : Option R
  pub carryover_at_change : R
  pub monthly_spent_at_change : R
  pub remaining_days_at_change : Option ℕ

-- A member of `pending_buy_orders`, and an order that `refund_cancelled_orders` gets.
pub record Pending (R : Type 0) : Type 0 where
  pub uuid : String
  pub ticker : String
  pub price : R
  pub volume : R
  pub group_no : Option ℕ
  pub budget_epoch : ℕ
  pub filled_volume : R

pub record Params (R : Type 0) : Type 0 where
  pub budget_epoch : Option ℕ
  pub plan_revision_no : Option ℕ
  pub budget_mode : Option String
  pub monthly_budget : Option R
  pub daily_fixed_budget : Option R
  pub per_order_budget : Option R
  pub monthly_spent : Option R
  pub carryover_budget : Option R
  pub sell_proceeds_mode : Option String
  pub allowance_credited_date : Option String
  pub current_month : Option (List ℕ)
  pub budget_plan_revisions : Option (List (Revision R))
  pub accounted_buy_order_uuids : List String
  pub recycled_sell_uuids : List String
  pub pending_buy_orders : List (Pending R)
  pub pending_sell_orders : List (Pending R)
  pub cycle_no : Option ℕ
  pub current_cycle_bought : List String
  pub skipped_untradable : List String
  pub last_group_no : Option ℕ
  pub side : Option String
  pub amount_type : Option String
  pub strategy_status : Option String
  pub schedule_enabled : Bool
  pub is_archived : Bool

-- A row of `strategy_templates`, its `params` apart. The id 0 is none.
pub record Template (R : Type 0) : Type 0 where
  pub id : ℕ
  pub user_id : String
  pub strategy_type : String
  pub exchange : String
  pub ticker : String
  pub budget : Option R
  pub count : Option ℕ

-- What the operations change: the `params` of a template, and the ledger, newest row first.
pub record Book (R : Type 0) : Type 0 where
  pub params : Params R
  pub ledger : List (Entry R)

-- The columns of `orders` and of `trade_logs` that are read.
pub record OrderRow (R : Type 0) : Type 0 where
  pub uuid : String
  pub ticker : String
  pub side : String
  pub price : R
  pub volume : R
  pub filled_volume : R
  pub status : String
  pub group_no : Option ℕ
  pub reorder_of : String

pub record TradeRow (R : Type 0) : Type 0 where
  pub uuid : String
  pub ticker : String
  pub side : String
  pub price : R
  pub volume : R
  pub fee_amount : R
  pub group_no : Option ℕ

-- `d.get(key, default)`
abbrev pub value_or {ℓ} : {A : Type ℓ} → Option A → A → A
value_or none default = default
value_or (some a) default = a

-- `text or default`
abbrev pub text_or : String → String → String
text_or t default = if t == "" then default else t

-- `d.get(key) or default`
abbrev pub set_text : Option String → String → String
set_text none default = default
set_text (some t) default = text_or t default

-- `xs[-n:]`, the number being positive.
abbrev drop_first {ℓ} : {A : Type ℓ} → ℕ → List A → List A
drop_first zero xs = xs
drop_first (suc n) [] = []
drop_first (suc n) (x ∷ xs) = drop_first n xs

abbrev pub last_of {ℓ} : {A : Type ℓ} → ℕ → List A → List A
last_of n xs = drop_first (length xs - n) xs

abbrev pub mem_text : String → List String → Bool
mem_text t = any (λ s. s == t)

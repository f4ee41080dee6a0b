-- ===== src/Dca/Schedules.antt =====
-- `DcaManager` of src/core/dca_manager.py: its state, and the methods that only look.
use supabot.Base.{
  Bool, List, Option, String, [], false, filter, if◌then◌else◌, ltb, map, nat_beq, nat_eq, none,
  not, some, string_eq, true, ℕ, ◌&&◌, ◌++◌, ◌-◌, ◌==◌, ◌||◌, ◌∷◌,
}
use supabot.Base.Float.{Float, fmax, fmin}
use supabot.Base.Int.{ℤ}
use supabot.Base.Text.{codes, lower, same_codes}
use supabot.Orders.Defs.{Side, ask, bid}
use supabot.Orders.Groups.{group_nos, next_above}
use supabot.Dca.Times.{Timing}

pub data Activity : Type 0 where
  active completed : Activity

pub record Schedule (R : Type 0) : Type 0 where
  pub id : String
  pub user_id : String
  pub exchange : String
  pub ticker : String
  pub side : Side
  pub timing : Timing
  pub amount_type : String
  pub amount : R
  pub max_runs : Option ℤ
  pub run_count : ℕ
  pub next_run_at : R
  pub last_run_at : Option R
  pub status : Activity
  pub group_no : Option ℕ
  pub created_at : R
  pub order_type : String
  pub carryover_mode : String
  pub template_id : Option ℕ
  -- marks that an execution puts on its copy of a schedule
  pub is_carryover : Bool
  pub carryover_reason : Option String

-- The arguments of `add_schedule`.
pub record NewSchedule (R : Type 0) : Type 0 where
  pub user_id : String
  pub exchange : String
  pub ticker : String
  pub side : String
  pub timing : Timing
  pub amount_type : String
  pub amount : R
  pub max_runs : Option ℤ
  pub group_no : Option ℕ
  pub template_id : Option ℕ
  pub order_type : String
  pub carryover_mode : String

pub data Request (R : Type 0) : Type 0 where
  upsert : Schedule R → Request R
  delete : String → Request R
  schedule_changed : Request R

-- The list, and the counts of failures of the module.
pub record Dca (R : Type 0) : Type 0 where
  pub schedules : List (Schedule R)
  pub fail_counts : String → ℕ

abbrev pub is_active : Activity → Bool
is_active active = true
is_active completed = false

-- The last number of the order book, from its next one.
abbrev pub order_nos : Option ℕ → List ℕ
order_nos none = []
order_nos (some n) = if ltb 1 n then (n - 1) ∷ [] else []

abbrev pub side_of : String → Side
side_of side = if side == "ask" || side == "sell" || side == "매도" then ask else bid

abbrev pub norm_order_type : String → String
norm_order_type t =
    if same_codes (lower t) (codes "market") || same_codes (lower t) (codes "시장가")
    then "market"
    else "limit"

abbrev pub norm_carryover : String → String
norm_carryover mode =
    if same_codes (lower mode) (codes "delay_20m")
    then "delay_20m"
    else (if same_codes (lower mode) (codes "skip") then "skip" else "next_day")

-- No exchange, or an empty text, asks for every exchange.
abbrev pub is_at : Option String → String → Bool
is_at none ex = true
is_at (some asked) ex = asked == "" || asked == ex

module _ {R : Type 0} where
  -- The schedules of a user, the next number of the order book if there is one, and the numbers of
  -- the trades that could be read.
  unfoldable pub get_next_group_no : String → Option ℕ → List (Option ℕ) → Dca R → ℕ
  get_next_group_no user order_next trades d = next_above (
      group_nos (map (λ s. s.group_no) (filter (λ s. s.user_id == user) d.schedules))
      ++ order_nos order_next
      ++ group_nos trades)

  abbrev pub schedule_of : NewSchedule R → String → R → ℕ → R → Schedule R
  schedule_of n id next group now = record {
    id = id;
    user_id = n.user_id;
    exchange = n.exchange;
    ticker = n.ticker;
    side = side_of n.side;
    timing = n.timing;
    amount_type = n.amount_type;
    amount = n.amount;
    max_runs = n.max_runs;
    run_count = 0;
    next_run_at = next;
    last_run_at = none;
    status = active;
    group_no = some group;
    created_at = now;
    order_type = norm_order_type n.order_type;
    carryover_mode = norm_carryover n.carryover_mode;
    template_id = n.template_id;
    is_carryover = false;
    carryover_reason = none;
  }

  abbrev pub first_with : String → List (Schedule R) → Option (Schedule R)
  first_with id [] = none
  first_with id (s ∷ rest) = if s.id == id then some s else first_with id rest

  -- A change of the first schedule with the id.
  abbrev pub change_first :
      String → (Schedule R → Schedule R) → List (Schedule R) → List (Schedule R)
  change_first id change [] = []
  change_first id change (s ∷ rest) =
      let more = change_first id change rest in if s.id == id then change s ∷ rest else s ∷ more

  abbrev pub first_group : String → ℕ → List (Schedule R) → Option (Schedule R)
  first_group user number [] = none
  first_group user number (s ∷ rest) =
      if s.user_id == user && elim s.group_no [ none ↦ false | some n ↦ nat_beq n number ]
      then some s
      else first_group user number rest

  unfoldable pub get_schedule_by_group_no : String → ℕ → Dca R → Option (Schedule R)
  get_schedule_by_group_no user number d = first_group user number d.schedules

  unfoldable pub get_user_schedules : String → Option String → Bool → Dca R → List (Schedule R)
  get_user_schedules user ex active_only d =
      filter
        (λ s. s.user_id == user && is_at ex s.exchange && (not active_only || is_active s.status))
        d.schedules

  abbrev pub is_owner : Option String → Schedule R → Bool
  is_owner none s = true
  is_owner (some user) s = s.user_id == user

  unfoldable pub get_schedule : String → Option String → Dca R → Option (Schedule R)
  get_schedule id user d = elim (first_with id d.schedules) [
    | none ↦ none
    | some s ↦ if is_owner user s then some s else none
  ]

module _ {R : Type 0} ⦃f : Float R⦄ where
  abbrev pub least : R → List R → R
  least x [] = x
  least x (y ∷ ys) = least (fmin x y) ys

  abbrev pub delay_until : R → List R → Option R
  delay_until now [] = none
  delay_until now (t ∷ ts) = some (fmax (f.of_ℕ 1) (f.sub (least t ts) now))

  unfoldable pub nearest_next_run_delay : R → Dca R → Option R
  nearest_next_run_delay now d =
      delay_until now (map (λ s. s.next_run_at) (filter (λ s. is_active s.status) d.schedules))

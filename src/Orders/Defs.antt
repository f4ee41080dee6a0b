-- ===== src/Orders/Defs.antt =====
-- src/core/order_manager.py: an order, and the state of `OrderManager`.
-- An order is a Python dictionary that the list `orders` and the index `_orders_by_uuid` share, so
-- the state has a heap, and the list and the index hold addresses. A row of the table `orders` is
-- found by its key `uuid`.
use supabot.Base.{
  Bool, Eq, List, Option, String, [], false, if◌then◌else◌, nat_eq, none, some, string_eq, ℕ, ◌==◌,
  ◌∷◌,
}

pub data Side : Type 0 where
  bid ask : Side

-- The words that the field `status` takes.
pub data Status : Type 0 where
  wait partial done cancel reserved pending_reorder market_closed cancel_requested : Status

-- `linked_to`: a target RSI, or the two ends of a text such as "65-75".
pub data Linked (R : Type 0) : Type 0 where
  level : R → Linked R
  span : R → R → Linked R

pub record Order (R : Type 0) : Type 0 where
  pub user_id : String
  pub exchange : String
  pub ticker : String
  pub uuid : String
  pub price : R
  pub volume : R
  pub filled_volume : R
  pub side : Side
  pub strategy : String
  pub target_rsi : Option R
  pub linked_to : Option (Linked R)
  pub status : Status
  pub created_at : R
  pub next_check_at : R
  pub reorder_of : Option String
  pub stop_price : Option R
  pub trailing_stop_pct : Option R
  pub group_no : Option ℕ
  pub template_id : Option ℕ
  pub auto_reorder : Bool

-- The arguments of `add_order`.
pub record NewOrder (R : Type 0) : Type 0 where
  pub user_id : String
  pub exchange : String
  pub ticker : String
  pub uuid : String
  pub price : R
  pub volume : R
  pub side : Side
  pub strategy : String
  pub target_rsi : Option R
  pub linked_to : Option (Linked R)
  pub status : Status
  pub reorder_of : Option String
  pub stop_price : Option R
  pub trailing_stop_pct : Option R
  pub group_no : Option ℕ
  pub template_id : Option ℕ
  pub auto_reorder : Bool

-- A map as a function, and one changed value of it.
abbrev pub at {ℓ κ} : {K : Type ℓ} {V : Type κ} ⦃e : Eq K⦄ → (K → V) → K → V → K → V
at f k v j = if k == j then v else f j

pub record Manager (R : Type 0) : Type 0 where
  pub heap : ℕ → Order R
  -- the next free address
  pub next : ℕ
  pub orders : List ℕ
  -- `_orders_by_uuid` and `_uuid_set`
  pub by_uuid : String → Option ℕ
  pub uuid_set : String → Bool

-- What a method asks of the database, and the call of `on_order_added`.
pub data Effect (R : Type 0) : Type 0 where
  db_upsert : Order R → Effect R
  db_delete : String → Effect R
  db_replace : Order R → String → Effect R
  db_delete_user : String → Effect R
  order_added : Effect R

abbrev pub Table : Type 0 → Type 0
Table R = String → Option (Order R)

abbrev pub is_row_of : {R : Type 0} → String → Option (Order R) → Bool
is_row_of user none = false
is_row_of user (some o) = o.user_id == user

-- The table after a request that succeeds. `_db_replace` writes the new row first, and deletes the
-- old one then.
unfoldable pub perform : {R : Type 0} → Effect R → Table R → Table R
perform (db_upsert o) db = at db o.uuid (some o)
perform (db_delete uuid) db = at db uuid none
perform (db_replace o old) db = at (at db o.uuid (some o)) old none
perform (db_delete_user user) db = λ u. if is_row_of user (db u) then none else db u
perform order_added db = db

unfoldable pub perform_all : {R : Type 0} → List (Effect R) → Table R → Table R
unfolding perform
perform_all [] db = db
perform_all (e ∷ effects) db = perform_all effects (perform e db)

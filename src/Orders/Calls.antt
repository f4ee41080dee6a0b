-- ===== src/Orders/Calls.antt =====
-- The order book as a finite map from uuids to orders, and the calls that change it.
use supabot.Base.{
  List, Option, String, [], nat_eq, none, some, string_eq, true, ◌++◌, ◌∷◌, ◌≡◌, ◌≢◌,
}
use supabot.Base.Float.{Float}
use supabot.Orders.Defs.{Effect, Manager, NewOrder, Order, Status, Table, perform_all}
use supabot.Orders.Manager.{
  add_order, clear_user_orders, mark_reorder_pending, remove_order, replace_order_uuid,
  update_next_check_at, update_order_fill, update_order_status, update_order_stop_price,
}
use supabot.Orders.Index.{IsIndexed}

-- The calls that change the book.
pub data Op (R : Type 0) : Type 0 where
  add : NewOrder R → R → Op R
  fill : String → R → Status → Op R
  restate : String → Status → Op R
  restop : String → Option R → Op R
  postpone : String → R → Op R
  recheck : String → R → Op R
  replace : String → String → R → Op R
  remove : String → Op R
  clear : String → Op R

module _ {R : Type 0} where
  -- What the book tracks under a uuid.
  abbrev pub tracked : Manager R → String → Option (Order R)
  tracked m u = elim (m.by_uuid u) [ none ↦ none | some a ↦ some (m.heap a) ]

  -- The table has the same orders.
  abbrev pub Mirrors : Manager R → Table R → Type 0
  Mirrors m db = (u : String) → db u ≡ tracked m u

  abbrev pub state_of : {A : Type 0} → A × Manager R × List (Effect R) → Manager R × List (Effect R)
  state_of (_, m, effects) = (m, effects)

  unfoldable pub step : ⦃f : Float R⦄ → Op R → Manager R → Manager R × List (Effect R)
  unfolding add_order update_order_fill update_order_status update_order_stop_price
      mark_reorder_pending update_next_check_at replace_order_uuid remove_order clear_user_orders
  step (add n now) m = add_order n now m
  step (fill u v st) m = state_of (update_order_fill u v st m)
  step (restate u st) m = state_of (update_order_status u st m)
  step (restop u sp) m = state_of (update_order_stop_price u sp m)
  step (postpone u t) m = state_of (mark_reorder_pending u t m)
  step (recheck u t) m = state_of (update_next_check_at u t m)
  step (replace old new now) m = state_of (replace_order_uuid old new now m)
  step (remove u) m = state_of (remove_order u true m)
  step (clear user) m = state_of (clear_user_orders user m)

  unfoldable pub run : ⦃f : Float R⦄ → List (Op R) → Manager R → Manager R × List (Effect R)
  unfolding step
  run [] m = (m, [])
  run (op ∷ ops) m =
      let (m', effects) = step op m in let (m'', more) = run ops m' in (m'', effects ++ more)

  -- A new uuid is neither the old one nor that of a tracked order.
  abbrev pub IsAllowed : Op R → Manager R → Type 0
  IsAllowed (replace old new now) m = (old ≢ new) × (m.by_uuid new ≡ none)
  IsAllowed (add n now) m = Unit
  IsAllowed _ m = Unit

  abbrev pub AreAllowed : ⦃f : Float R⦄ → List (Op R) → Manager R → Type 0
  AreAllowed [] m = Unit
  AreAllowed (op ∷ ops) m = IsAllowed op m × AreAllowed ops (step op m).0

  abbrev pub Keeps : Manager R → Table R → Manager R × List (Effect R) → Type 0
  Keeps m db (m', effects) = IsIndexed m' × Mirrors m' (perform_all effects db)

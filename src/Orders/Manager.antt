-- ===== src/Orders/Manager.antt =====
-- The methods of `OrderManager` in src/core/order_manager.py. A method returns its result, the new
-- state and what it asks of the database.
use supabot.Base.{
  Bool, List, Option, String, [], false, filter, if◌then◌else◌, length, map, nat_beq, nat_eq, none,
  not, some, string_eq, true, ℕ, ◌&&◌, ◌++◌, ◌+◌, ◌==◌, ◌∷◌,
}
use supabot.Base.Float.{Float}
use supabot.Orders.Defs.{
  Effect, Manager, NewOrder, Order, Status, at, db_delete, db_delete_user, db_replace, db_upsert,
  order_added, pending_reorder, wait,
}

-- The first order of the list with the uuid.
abbrev pub scan : {R : Type 0} → (ℕ → Order R) → String → List ℕ → Option ℕ
scan heap uuid [] = none
scan heap uuid (a ∷ rest) = if (heap a).uuid == uuid then some a else scan heap uuid rest

module _ {R : Type 0} where
  abbrev pub indexed : String → Manager R → Option ℕ → Option ℕ × Manager R
  indexed uuid m none = (none, m)
  indexed uuid m (some a) = (
    some a,
    record m { by_uuid = at m.by_uuid uuid (some a); uuid_set = at m.uuid_set uuid true },
  )

  abbrev pub found : String → Manager R → Option ℕ → Option ℕ × Manager R
  found uuid m (some a) = (some a, m)
  found uuid m none = indexed uuid m (scan m.heap uuid m.orders)

  -- By the index; an order that only the list has is put into the index.
  unfoldable pub get_order_by_uuid : String → Manager R → Option ℕ × Manager R
  get_order_by_uuid uuid m = found uuid m (m.by_uuid uuid)

  unfoldable pub get_order : String → Manager R → Option (Order R) × Manager R
  unfolding get_order_by_uuid
  get_order uuid m =
      let (o, m') = get_order_by_uuid uuid m in
      (elim o [ none ↦ none | some a ↦ some (m'.heap a) ], m')

  unfoldable pub has_order : String → Manager R → Bool × Manager R
  unfolding get_order_by_uuid
  has_order uuid m =
      let (o, m') = get_order_by_uuid uuid m in
      if m.uuid_set uuid then (true, m) else (elim o [ none ↦ false | some a ↦ true ], m')

  unfoldable pub remove_order : String → Bool → Manager R → Bool × Manager R × List (Effect R)
  remove_order uuid save m =
      let kept = filter (λ a. not ((m.heap a).uuid == uuid)) m.orders in
      let removed = not (nat_beq (length kept) (length m.orders)) in
      (
        removed,
        record m {
          orders = kept;
          by_uuid = at m.by_uuid uuid none;
          uuid_set = at m.uuid_set uuid false;
        },
        if removed && save then db_delete uuid ∷ [] else [],
      )

  -- The dictionary that `add_order` makes.
  unfoldable pub new_order : ⦃f : Float R⦄ → NewOrder R → R → Order R
  new_order ⦃f⦄ n now = record {
    user_id = n.user_id;
    exchange = n.exchange;
    ticker = n.ticker;
    uuid = n.uuid;
    price = n.price;
    volume = n.volume;
    filled_volume = f.of_ℕ 0;
    side = n.side;
    strategy = n.strategy;
    target_rsi = n.target_rsi;
    linked_to = n.linked_to;
    status = n.status;
    created_at = now;
    next_check_at = f.of_ℕ 0;
    reorder_of = n.reorder_of;
    stop_price = n.stop_price;
    trailing_stop_pct = n.trailing_stop_pct;
    group_no = n.group_no;
    template_id = n.template_id;
    auto_reorder = n.auto_reorder;
  }

  -- A new object at the end of the list, and in the index.
  abbrev pub track : Order R → Manager R → Manager R
  track o m = record m {
    heap = at m.heap m.next o;
    next = m.next + 1;
    orders = m.orders ++ m.next ∷ [];
    by_uuid = at m.by_uuid o.uuid (some m.next);
    uuid_set = at m.uuid_set o.uuid true;
  }

  unfoldable pub add_order :
      ⦃f : Float R⦄ → NewOrder R → R → Manager R → Manager R × List (Effect R)
  unfolding remove_order new_order
  add_order n now m =
      let o = new_order n now in
      let (_, m', _) = remove_order n.uuid false m in (track o m', db_upsert o ∷ order_added ∷ [])

  abbrev pub write : (Order R → Order R) → Option ℕ × Manager R → Bool × Manager R × List (Effect R)
  write change (none, m) = (false, m, [])
  write change (some a, m) =
      let o = change (m.heap a) in (true, record m { heap = at m.heap a o }, db_upsert o ∷ [])

  -- `update_order(uuid, **fields)`, with the fields as a change of the dictionary.
  unfoldable pub update_order :
      String → (Order R → Order R) → Manager R → Bool × Manager R × List (Effect R)
  unfolding get_order_by_uuid
  update_order uuid change m = write change (get_order_by_uuid uuid m)

  unfoldable pub update_order_fill :
      String → R → Status → Manager R → Bool × Manager R × List (Effect R)
  unfolding update_order
  update_order_fill uuid filled st =
      update_order uuid (λ o. record o { filled_volume = filled; status = st })

  unfoldable pub update_order_status :
      String → Status → Manager R → Bool × Manager R × List (Effect R)
  unfolding update_order
  update_order_status uuid st = update_order uuid (λ o. record o { status = st })

  unfoldable pub update_order_stop_price :
      String → Option R → Manager R → Bool × Manager R × List (Effect R)
  unfolding update_order
  update_order_stop_price uuid sp = update_order uuid (λ o. record o { stop_price = sp })

  unfoldable pub mark_reorder_pending : String → R → Manager R → Bool × Manager R × List (Effect R)
  unfolding update_order
  mark_reorder_pending uuid check =
      update_order uuid (λ o. record o { status = pending_reorder; next_check_at = check })

  unfoldable pub update_next_check_at : String → R → Manager R → Bool × Manager R × List (Effect R)
  unfolding update_order
  update_next_check_at uuid check = update_order uuid (λ o. record o { next_check_at = check })

  -- The order under its new uuid.
  unfoldable pub renamed : ⦃f : Float R⦄ → String → String → R → Order R → Order R
  renamed ⦃f⦄ old new now o = record o {
    reorder_of = some old;
    uuid = new;
    status = wait;
    next_check_at = f.of_ℕ 0;
    created_at = now;
  }

  abbrev pub rename :
      ⦃f : Float R⦄
      → String
      → String
      → R
      → Option ℕ × Manager R
      → Bool × Manager R × List (Effect R)
  unfolding renamed
  rename old new now (none, m) = (false, m, [])
  rename old new now (some a, m) =
      let o = renamed old new now (m.heap a) in
      (
        true,
        record m {
          heap = at m.heap a o;
          by_uuid = at (at m.by_uuid old none) new (some a);
          uuid_set = at (at m.uuid_set old false) new true;
        },
        db_replace o old ∷ [],
      )

  unfoldable pub replace_order_uuid :
      ⦃f : Float R⦄ → String → String → R → Manager R → Bool × Manager R × List (Effect R)
  unfolding get_order_by_uuid renamed
  replace_order_uuid old new now m = rename old new now (get_order_by_uuid old m)

  -- The orders themselves, in the order of the list.
  abbrev pub all_orders : Manager R → List (Order R)
  all_orders m = map m.heap m.orders

  -- `exchange=None` asks for every exchange, and so does an empty text.
  unfoldable pub get_user_orders : String → Option String → Manager R → List (Order R)
  get_user_orders user none m = filter (λ o. o.user_id == user) (all_orders m)
  get_user_orders user (some ex) m =
      if ex == ""
      then filter (λ o. o.user_id == user) (all_orders m)
      else filter (λ o. o.user_id == user && o.exchange == ex) (all_orders m)

  unfoldable pub get_strategy_orders : String → String → Manager R → List (Order R)
  get_strategy_orders user st m = filter (λ o. o.user_id == user && o.strategy == st) (all_orders m)

  -- The addresses of a list whose orders belong to the user, dropped from the index.
  abbrev pub unindex :
      {V : Type 0} → (ℕ → Order R) → String → V → List ℕ → (String → V) → String → V
  unindex heap user v [] f = f
  unindex heap user v (a ∷ rest) f =
      unindex heap user v rest (if (heap a).user_id == user then at f (heap a).uuid v else f)

  unfoldable pub clear_user_orders : String → Manager R → ℕ × Manager R × List (Effect R)
  clear_user_orders user m = (
    length (filter (λ a. (m.heap a).user_id == user) m.orders),
    record m {
      orders = filter (λ a. not ((m.heap a).user_id == user)) m.orders;
      by_uuid = unindex m.heap user none m.orders m.by_uuid;
      uuid_set = unindex m.heap user false m.orders m.uuid_set;
    },
    db_delete_user user ∷ [],
  )

  -- `{o["uuid"]: o for o in self.orders}` and the addresses, for rows that were just read.
  abbrev pub load : List (Order R) → Manager R → Manager R
  load [] m = m
  load (o ∷ rows) m = load rows (track o m)

  -- The objects of the old list stay on the heap, and nothing refers to them.
  unfoldable pub reload : List (Order R) → Manager R → Manager R
  reload rows m = load rows (record m { orders = []; by_uuid = λ _. none; uuid_set = λ _. false })

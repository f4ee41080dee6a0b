-- ===== src/Orders/Mirror.antt =====
-- The table in the database as a mirror of the order book.
use supabot.Base.{
  ==_iff, Bool, List, Option-cases, String, [], arith, filter, filter_drops, filter_keeps, inl, inr,
  length, nat_beq_iff, nat_eq, none, not, refl, some, string_eq, true, ℕ, ◌++◌, ◌==◌, ◌∷◌, ◌≡◌, ◌≢◌,
}
use supabot.Base.Float.{Float}
use supabot.Orders.Defs.{
  Effect, Manager, NewOrder, Order, Table, pending_reorder, perform, perform_all,
}
use supabot.Orders.Manager.{
  add_order, clear_user_orders, mark_reorder_pending, new_order, remove_order, renamed,
  replace_order_uuid, update_next_check_at, update_order, update_order_fill, update_order_status,
  update_order_stop_price,
}
use supabot.Orders.Index.{
  IsIndexed, add_order-IsIndexed, get_order_by_uuid_lem, is_some, remove_order-IsIndexed,
  update_order-IsIndexed,
}
use supabot.Orders.Replace.{clear_user_orders-IsIndexed, replace_order_uuid-IsIndexed, unindex_all}
use supabot.Orders.Calls.{
  AreAllowed, IsAllowed, Keeps, Mirrors, Op, add, clear, fill, postpone, recheck, remove, replace,
  restate, restop, run, state_of, step,
}

module _ {R : Type 0} where
  update_order-Keeps :
      (u : String) (change : Order R → Order R) (m : Manager R) (db : Table R)
      → IsIndexed m
      → Mirrors m db
      → ((o : Order R) → (change o).uuid ≡ o.uuid)
      → Keeps m db (state_of (update_order u change m))
  unfolding update_order perform_all perform
  update_order-Keeps u change m db w same keeps =
      let ok = update_order-IsIndexed u change m w keeps in
      (
        ok,
        rw (get_order_by_uuid_lem u m w) (elim (Option-cases (m.by_uuid u)) [
          | inl e ↦ rw e same
          | inr (b, e) ↦ rw e (λ v. ground (
            arith,
            same v,
            keeps (m.heap b),
            w.keyed u b e,
            e,
            ==_iff u v,
            ==_iff (m.heap b).uuid v,
            w.keyed v b,
            ==_iff (change (m.heap b)).uuid v,
          ))
        ]),
      )

  -- `remove_order` says whether the uuid was tracked.
  pub remove_order_removed :
      (u : String) (save : Bool) (m : Manager R)
      → IsIndexed m
      → (remove_order u save m).0 ≡ is_some (m.by_uuid u)
  unfolding remove_order
  remove_order_removed u save m w = elim (Option-cases (m.by_uuid u)) [
    | inl e ↦ rw e (
        ground (
          arith,
          filter_keeps (λ b. not ((m.heap b).uuid == u)) m.orders
              (λ a h. ground (arith, w.indexed a h, ==_iff (m.heap a).uuid u, e)),
          nat_beq_iff (length (filter (λ b. not ((m.heap b).uuid == u)) m.orders))
              (length m.orders),
        ))
    | inr (b, e) ↦ rw e (
        ground (
          arith,
          filter_drops (λ c. not ((m.heap c).uuid == u)) b m.orders (w.listed u b e)
              (ground (arith, w.keyed u b e, ==_iff (m.heap b).uuid u)),
        ))
  ]

  remove_order-Keeps :
      (u : String) (m : Manager R) (db : Table R)
      → IsIndexed m
      → Mirrors m db
      → Keeps m db (state_of (remove_order u true m))
  unfolding remove_order perform_all perform
  remove_order-Keeps u m db w same = (
    remove_order-IsIndexed u true m w,
    λ v. ground (arith, same v, remove_order_removed u true m w, ==_iff u v),
  )

  add_order-Keeps :
      ⦃f : Float R⦄ (n : NewOrder R) (now : R) (m : Manager R) (db : Table R)
      → IsIndexed m
      → Mirrors m db
      → Keeps m db (add_order n now m)
  unfolding add_order new_order remove_order perform_all perform
  add_order-Keeps n now m db w same = (
    add_order-IsIndexed n now m w,
    λ v. elim (Option-cases (m.by_uuid v)) [
      | inl e ↦ ground (arith, same v, e, ==_iff n.uuid v, nat_beq_iff m.next m.next)
      | inr (a, e) ↦ ground (
        arith,
        same v,
        e,
        ==_iff n.uuid v,
        nat_beq_iff m.next m.next,
        nat_beq_iff m.next a,
        w.allocated a (w.listed v a e),
      )
    ],
  )

  replace_order_uuid-Keeps :
      ⦃f : Float R⦄ (old new : String) (now : R) (m : Manager R) (db : Table R)
      → IsIndexed m
      → Mirrors m db
      → old ≢ new
      → m.by_uuid new ≡ none
      → Keeps m db (state_of (replace_order_uuid old new now m))
  unfolding replace_order_uuid renamed perform_all perform
  replace_order_uuid-Keeps old new now m db w same ne free = (
    replace_order_uuid-IsIndexed old new now m w (λ _. free),
    rw (get_order_by_uuid_lem old m w) (elim (Option-cases (m.by_uuid old)) [
      | inl e ↦ rw e same
      | inr (b, e) ↦ rw e (λ v. elim (Option-cases (m.by_uuid v)) [
        | inl g ↦
            ground (arith, same v, g, ==_iff old v, ==_iff new v, ==_iff old new, nat_beq_iff b b)
        | inr (a, g) ↦ ground (
          arith,
          same v,
          g,
          ==_iff old v,
          ==_iff new v,
          ==_iff old new,
          nat_beq_iff b a,
          nat_beq_iff b b,
          w.keyed old b e,
          w.keyed v a g,
        )
      ])
    ]),
  )

  clear_user_orders-Keeps :
      (user : String) (m : Manager R) (db : Table R)
      → IsIndexed m
      → Mirrors m db
      → Keeps m db (state_of (clear_user_orders user m))
  unfolding clear_user_orders perform_all perform
  clear_user_orders-Keeps user m db w same = (
    clear_user_orders-IsIndexed user m w,
    λ v. elim (Option-cases (m.by_uuid v)) [
      | inl g ↦ ground (arith, same v, g, unindex_all m user none m.by_uuid v w (λ e. e))
      | inr (a, g) ↦ ground (arith, same v, g, unindex_all m user none m.by_uuid v w (λ e. e))
    ],
  )

  step-Keeps :
      ⦃f : Float R⦄ (op : Op R) (m : Manager R) (db : Table R)
      → IsIndexed m
      → Mirrors m db
      → IsAllowed op m
      → Keeps m db (step op m)
  unfolding step update_order_fill update_order_status update_order_stop_price mark_reorder_pending
      update_next_check_at
  step-Keeps (add n now) m db w same h = add_order-Keeps n now m db w same
  step-Keeps (fill u v st) m db w same h =
      update_order-Keeps u (λ o. record o { filled_volume = v; status = st }) m db w same
        (λ o. refl)
  step-Keeps (restate u st) m db w same h =
      update_order-Keeps u (λ o. record o { status = st }) m db w same (λ o. refl)
  step-Keeps (restop u sp) m db w same h =
      update_order-Keeps u (λ o. record o { stop_price = sp }) m db w same (λ o. refl)
  step-Keeps (postpone u t) m db w same h =
      update_order-Keeps u (λ o. record o { status = pending_reorder; next_check_at = t }) m db w
        same (λ o. refl)
  step-Keeps (recheck u t) m db w same h =
      update_order-Keeps u (λ o. record o { next_check_at = t }) m db w same (λ o. refl)
  step-Keeps (replace old new now) m db w same h =
      replace_order_uuid-Keeps old new now m db w same h.0 h.1
  step-Keeps (remove u) m db w same h = remove_order-Keeps u m db w same
  step-Keeps (clear user) m db w same h = clear_user_orders-Keeps user m db w same

  perform_all-append :
      (xs ys : List (Effect R)) (db : Table R)
      → perform_all (xs ++ ys) db ≡ perform_all ys (perform_all xs db)
  unfolding perform_all
  perform_all-append [] ys db = refl
  perform_all-append (x ∷ xs) ys db = perform_all-append xs ys (perform x db)

  -- Every series of calls that gives an order no uuid which is in use keeps the index in order, and
  -- keeps the table in the database, after the requests that the calls made, equal to the book.
  pub run-Mirrors :
      ⦃f : Float R⦄ (ops : List (Op R)) (m : Manager R) (db : Table R)
      → IsIndexed m
      → Mirrors m db
      → AreAllowed ops m
      → let (m', effects) = run ops m in IsIndexed m' × Mirrors m' (perform_all effects db)
  unfolding run perform_all
  run-Mirrors [] m db w same h = (w, same)
  run-Mirrors (op ∷ ops) m db w same h =
      let (m', effects) = step op m in
      let (w', same') = step-Keeps op m db w same h.0 in
      let (w'', same'') = run-Mirrors ops m' (perform_all effects db) w' same' h.1 in
      (w'', λ u. rw (perform_all-append effects (run ops m').1 db) (same'' u))

  -- In a book whose index is in order, a tracked order that gets its own uuid once more stays in the
  -- book, and its row is deleted from the table.
  pub replace_self_loses_row :
      ⦃f : Float R⦄ (u : String) (now : R) (m : Manager R) (db : Table R) (a : ℕ)
      → IsIndexed m
      → m.by_uuid u ≡ some a
      → let (_, m', effects) = replace_order_uuid u u now m in
        (m'.by_uuid u ≡ some a) × (perform_all effects db u ≡ none)
  unfolding replace_order_uuid renamed perform_all perform
  replace_self_loses_row u now m db a w e =
      rw (get_order_by_uuid_lem u m w) (rw e (ground (arith, ==_iff u u)))

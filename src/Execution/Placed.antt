-- ===== src/Execution/Placed.antt =====
-- What a batch leaves behind.
use supabot.Base.{
  Bool, Bool-cases, String, all, arith, false, inl, inr, nat_eq, none, refl, some, string_eq, suc,
  true, zero, ℕ, ◌+◌, ◌∙◌, ◌≡◌, ◌≤◌,
}
use supabot.Base.Float.{Float}
use supabot.Orders.Manager.{add_order}
use supabot.Orders.Index.{IsIndexed, add_order-IsIndexed}
use supabot.Sync.Defs.{Adapter, Answer-cases, Bot, Market, Out, pure, val}
use supabot.Execution.Batch.{
  Batch, Leg, execute_order_batch, leg_order, place, run_leg, run_legs, send_leg, silent, skip,
}
use supabot.Execution.Grid.{Grid, execute_grid_orders, grid_leg, is_reserved_now}

abbrev pub is_silent : {R : Type 0} → Leg R → Bool
is_silent silent = true
is_silent _ = false

module _ {R W : Type 0} where
  -- After `n` legs, none of which was silent: the index is in order, the counts are right, and a
  -- reserved batch has left the world as it was and accounts for every leg.
  abbrev IsPlaced : Bool → ℕ → Bot R W → Out (ℕ × ℕ) × Bot R W → Type 0
  IsPlaced is_res n b p =
      (counts : ℕ × ℕ) × (b' : Bot R W) × (p ≡ (val counts, b'))
      × (counts.0 + counts.1 ≤ n)
      × (is_res ≡ true → counts.0 + counts.1 ≡ n)
      × IsIndexed b'.book
      × (is_res ≡ true → b'.world ≡ b.world)
      × (b'.trades ≡ b.trades)

module _ {R W : Type 0} ⦃f : Float R⦄ where
  run_leg-IsPlaced :
      (ad : Adapter R W) (c : Batch) (l : Leg R) (i : ℕ) (b : Bot R W)
      → is_silent l ≡ false
      → IsIndexed b.book
      → IsPlaced c.is_reserved 1 b (run_leg ad c l i b)
  unfolding run_leg send_leg add_order
  run_leg-IsPlaced ad c silent i b h w = cc
  run_leg-IsPlaced ad c skip i b h w = ((0, 1), _, refl, omega arith, λ _. refl, w, λ _. refl, refl)
  run_leg-IsPlaced ad c (place l) i b h w = elim (Bool-cases c.is_reserved) [
    | inl yes_reserved ↦ rw yes_reserved (
      (1, 0),
      _,
      refl,
      omega arith,
      λ _. refl,
      add_order-IsIndexed (leg_order c l (c.reserved_uuid i)) (ad.now b.world) b.book w,
      λ _. refl,
      refl,
    )
    | inr sent ↦
        let p = ad.create_order c.user_id c.exchange c.ticker l.side l.price l.volume b.world in
        elim (Answer-cases p) [
          | inr (v, e) ↦ rw (sent, e) ((0, 0), _, refl, omega arith, λ t. cc, w, λ t. cc, refl)
          | inl (none, v, e) ↦
              rw (sent, e) ((0, 0), _, refl, omega arith, λ t. cc, w, λ t. cc, refl)
          | inl (some u, v, e) ↦
              rw (sent, e)
                (
                  (1, 0),
                  _,
                  refl,
                  omega arith,
                  λ t. refl,
                  add_order-IsIndexed (leg_order c l u) (ad.now v) b.book w,
                  λ t. cc,
                  refl,
                )
        ]
  ]

  run_legs-IsPlaced :
      (ad : Adapter R W) (c : Batch) (leg : ℕ → Leg R) (i n : ℕ) (b : Bot R W)
      → ((k : ℕ) → is_silent (leg k) ≡ false)
      → IsIndexed b.book
      → IsPlaced c.is_reserved n b (run_legs ad c (λ k. pure (leg k)) i n b)
  unfolding run_legs
  run_legs-IsPlaced ad c leg i zero b h w =
      ((0, 0), _, refl, omega arith, λ _. refl, w, λ _. refl, refl)
  run_legs-IsPlaced ad c leg i (suc n) b h w =
      let (one, b1, e, le1, all1, w1, same1, trades1) = run_leg-IsPlaced ad c (leg i) i b (h i) w in
      let (more, b2, e2, le2, all2, w2, same2, trades2) =
        run_legs-IsPlaced ad c leg (i + 1) n b1 h w1 in
      rw (e, e2)
        (
          (one.0 + more.0, one.1 + more.1),
          b2,
          refl,
          omega arith,
          λ t. omega (arith, all1 t, all2 t),
          w2,
          λ t. same2 t ∙ same1 t,
          trades2 ∙ trades1,
        )

  pub grid_leg_heard :
      (ex : Market R W) (ticker : String) (g : Grid R) (k : ℕ)
      → is_silent (grid_leg ex ticker g k) ≡ false
  unfolding grid_leg
  grid_leg_heard ex ticker g k = ground arith

  -- A grid is placed without an exception, whatever the exchange answers: no more legs are placed or
  -- skipped than there are, and the index of the book stays in order. No trade is booked.
  execute_grid_orders_counts :
      (ad : Adapter R W) (c : Batch) (g : Grid R) (b : Bot R W)
      → IsIndexed b.book
      → let (res, b') = execute_grid_orders ad c g b in
        ((counts : ℕ × ℕ) × (res ≡ val counts) × (counts.0 + counts.1 ≤ g.count))
        × IsIndexed b'.book
        × (b'.trades ≡ b.trades)
  unfolding execute_grid_orders execute_order_batch
  execute_grid_orders_counts ad c g b w =
      let ex = ad.get_exchange c.exchange in
      let here = record c { is_reserved = is_reserved_now ex c.ticker b.world } in
      let (counts, b', e, le, all, w', same, trades) =
        run_legs-IsPlaced ad here (grid_leg ex c.ticker g) 0 g.count b
          (grid_leg_heard ex c.ticker g) w in
      rw e ((counts, refl, le), w', trades)

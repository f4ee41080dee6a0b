-- ===== src/Execution/Kept.antt =====
-- What a batch outside the session of its market leaves in the order book.
use supabot.Base.{
  ==_iff, ==_self, Bool-cases, String, arith, false, inl, inr, ltb, ltb→lt, nat_eq, refl, some,
  string_eq, subst, suc, sym, true, zero, ℕ, ◌+◌, ◌<◌, ◌==◌, ◌∙◌, ◌≡◌, ◌≢◌, ◌≤◌,
}
use supabot.Base.Float.{Float}
use supabot.Orders.Defs.{Manager, Order, reserved}
use supabot.Orders.Manager.{add_order, found, new_order, remove_order}
use supabot.Sync.Defs.{Adapter, Bot, Out, pure, val}
use supabot.Execution.Batch.{
  Batch, Leg, LegOrder, execute_order_batch, leg_order, place, run_leg, run_legs, send_leg, silent,
  skip,
}
use supabot.Execution.Grid.{Grid, execute_grid_orders, grid_leg, is_reserved_now}
use supabot.Execution.Placed.{grid_leg_heard, is_silent}

-- The batch, as it is outside the session.
abbrev pub waiting_batch : Batch → Batch
waiting_batch c = record c { is_reserved = true }

-- A reserved order of the batch, with the price, the volume, the side and the strategy of a leg.
pub record IsLegOrder {R : Type 0} (c : Batch) (l : LegOrder R) (uuid : String) (o : Order R)
    : Type 0 where
  pub uuid_of : o.uuid ≡ uuid
  pub status_of : o.status ≡ reserved
  pub user_of : o.user_id ≡ c.user_id
  pub exchange_of : o.exchange ≡ c.exchange
  pub ticker_of : o.ticker ≡ c.ticker
  pub group_of : o.group_no ≡ some c.group_no
  pub price_of : o.price ≡ l.price
  pub volume_of : o.volume ≡ l.volume
  pub side_of : o.side ≡ l.side
  pub strategy_of : o.strategy ≡ l.strategy

reserved_leg :
    {R : Type 0} ⦃f : Float R⦄ (c : Batch) (l : LegOrder R) (uuid : String) (now : R)
    → c.is_reserved ≡ true
    → IsLegOrder c l uuid (new_order (leg_order c l uuid) now)
unfolding new_order
reserved_leg c l uuid now waits = record {
  uuid_of = refl;
  status_of = rw waits refl;
  user_of = refl;
  exchange_of = refl;
  ticker_of = refl;
  group_of = refl;
  price_of = refl;
  volume_of = refl;
  side_of = refl;
  strategy_of = refl;
}

module _ {R : Type 0} (c : Batch) (leg : ℕ → Leg R) where
  -- At the address is one of the legs from `i` on, `n` of them: a reserved order of the batch that the
  -- index finds under the leg's uuid.
  abbrev pub IsKept : ℕ → ℕ → Manager R → ℕ → Type 0
  IsKept i n m k =
      (j : ℕ) × (l : LegOrder R) × (i ≤ j)
      × (j < i + n)
      × (leg j ≡ place l)
      × (m.by_uuid (c.reserved_uuid j) ≡ some k)
      × IsLegOrder c l (c.reserved_uuid j) (m.heap k)

  -- The legs have added `count` orders, each one kept; what was there before is as it was.
  abbrev pub AreKept : ℕ → ℕ → Manager R → Manager R → ℕ → Type 0
  AreKept i n m m' count =
      (m'.next ≡ m.next + count)
      × ((k : ℕ) → k < m.next → m'.heap k ≡ m.heap k)
      × ((u : String)
          → ((j : ℕ) → i ≤ j → j < i + n → c.reserved_uuid j ≢ u)
          → m'.by_uuid u ≡ m.by_uuid u)
      × ((k : ℕ) → m.next ≤ k → k < m'.next → IsKept i n m' k)

  none_kept : (i n : ℕ) (m : Manager R) → AreKept i n m m 0
  none_kept i n m = (
    omega arith,
    λ k before. refl,
    λ u other. refl,
    λ k from below. absurd (omega (arith, from, below)),
  )

  one_kept :
      ⦃f : Float R⦄ (i : ℕ) (l : LegOrder R) (now : R) (m : Manager R)
      → c.is_reserved ≡ true
      → leg i ≡ place l
      → AreKept i 1 m (add_order (leg_order c l (c.reserved_uuid i)) now m).0 1
  unfolding add_order new_order remove_order
  one_kept i l now m waits placed =
      let uuid = c.reserved_uuid i in
      let m' = (add_order (leg_order c l uuid) now m).0 in
      (
        refl,
        λ k before. ground (arith, ==_iff m.next k, before),
        λ u other. elim (Bool-cases (uuid == u)) [
          | inl same ↦ absurd (other i (omega arith) (omega arith) ((==_iff uuid u).0 same))
          | inr apart ↦ rw apart refl
        ],
        λ k from below.
            let e : m.next ≡ k = omega (arith, from, below) in
            subst (λ x. IsKept i 1 m' x) e
              (
                i,
                l,
                omega arith,
                omega arith,
                placed,
                rw (==_self uuid) refl,
                rw (==_self m.next) (reserved_leg c l uuid now waits),
              ),
      )

  then_kept :
      (i n : ℕ) (m m1 m2 : Manager R) (one more : ℕ)
      → ((x : ℕ) → i + 1 ≤ x → x < i + 1 + n → c.reserved_uuid x ≢ c.reserved_uuid i)
      → AreKept i 1 m m1 one
      → AreKept (i + 1) n m1 m2 more
      → AreKept i (suc n) m m2 (one + more)
  then_kept i n m m1 m2 one more distinct (next1, old1, index1, new1) (next2, old2, index2, new2) =
      (
        omega (arith, next1, next2),
        λ k before. old2 k (omega (arith, next1, before)) ∙ old1 k before,
        λ u other.
            index2 u (λ j from below. other j (omega (arith, from)) (omega (arith, below)))
            ∙ index1 u (λ j from below. other j from (omega (arith, below))),
        λ k from below. elim (Bool-cases (ltb k m1.next)) [
          | inr not_earlier ↦
              let later : m1.next ≤ k = ground (arith, not_earlier) in
              let (j, l, after, before, placed, found, is_reserved) = new2 k later below in
              (j, l, omega (arith, after), omega (arith, before), placed, found, is_reserved)
          | inl is_earlier ↦
              let earlier : k < m1.next = ltb→lt k m1.next is_earlier in
              let (j, l, after, before, placed, found, rest) = new1 k from earlier in
              let same_leg : j ≡ i = omega (arith, after, before) in
              let apart : (x : ℕ)
                  → i + 1 ≤ x
                  → x < i + 1 + n
                  → c.reserved_uuid x ≢ c.reserved_uuid j =
                subst
                  (λ y. (x : ℕ) → i + 1 ≤ x → x < i + 1 + n → c.reserved_uuid x ≢ c.reserved_uuid y)
                  (sym same_leg) distinct in
              (
                j,
                l,
                after,
                omega (arith, before),
                placed,
                index2 (c.reserved_uuid j) apart ∙ found,
                rw (old2 k earlier) rest,
              )
        ],
      )

module _ {R W : Type 0} ⦃f : Float R⦄ (ad : Adapter R W) (c : Batch) (leg : ℕ → Leg R) (count : ℕ)
    (distinct : (i j : ℕ)
      → i < count
      → j < count
      → c.reserved_uuid i ≡ c.reserved_uuid j
      → i ≡ j) where
  -- After `n` legs: every leg is kept or skipped, and nothing was sent.
  AllKept : ℕ → ℕ → Bot R W → Out (ℕ × ℕ) × Bot R W → Type 0
  AllKept i n b p =
      (counts : ℕ × ℕ) × (b' : Bot R W) × (p ≡ (val counts, b'))
      × (counts.0 + counts.1 ≡ n)
      × (b'.world ≡ b.world)
      × AreKept (waiting_batch c) leg i n b.book b'.book (counts.0)

  run_leg-AllKept :
      (i : ℕ) (l : Leg R) (b : Bot R W)
      → leg i ≡ l
      → is_silent l ≡ false
      → AllKept i 1 b (run_leg ad (waiting_batch c) l i b)
  unfolding run_leg send_leg add_order AllKept
  run_leg-AllKept i silent b e heard = cc
  run_leg-AllKept i skip b e heard =
      ((0, 1), b, refl, refl, refl, none_kept (waiting_batch c) leg i 1 b.book)
  run_leg-AllKept i (place l) b e heard = (
    (1, 0),
    _,
    refl,
    refl,
    refl,
    one_kept (waiting_batch c) leg i l (ad.now b.world) b.book refl e,
  )

  run_legs-AllKept :
      (i n : ℕ) (b : Bot R W)
      → i + n ≤ count
      → ((k : ℕ) → is_silent (leg k) ≡ false)
      → AllKept i n b (run_legs ad (waiting_batch c) (λ k. pure (leg k)) i n b)
  unfolding run_legs AllKept
  run_legs-AllKept i zero b within heard =
      ((0, 0), b, refl, refl, refl, none_kept (waiting_batch c) leg i 0 b.book)
  run_legs-AllKept i (suc n) b within heard =
      let (one, b1, e1, sum1, same1, kept1) = run_leg-AllKept i (leg i) b refl (heard i) in
      let (more, b2, e2, sum2, same2, kept2) =
        run_legs-AllKept (i + 1) n b1 (omega (arith, within)) heard in
      rw (e1, e2)
        (
          (one.0 + more.0, one.1 + more.1),
          b2,
          refl,
          omega (arith, sum1, sum2),
          same2 ∙ same1,
          then_kept (waiting_batch c) leg i n b.book b1.book b2.book (one.0) (more.0)
              (λ x from below e. omega (
                arith,
                from,
                distinct x i (omega (arith, below, within)) (omega (arith, within)) e,
              ))
              kept1 kept2,
        )

module _ {R W : Type 0} ⦃f : Float R⦄ where
  -- Outside the session of the market, with different uuids for different legs: a grid is placed
  -- without an exception, and nothing is sent to the exchange. Every leg is counted as placed or as
  -- skipped. As many orders as are counted as placed are added to the book, whose other orders stay as
  -- they are; each of them is a reserved order for the price and the volume of a leg of the grid, and
  -- is tracked under the leg's own uuid.
  pub execute_grid_orders_reserved :
      (ad : Adapter R W) (c : Batch) (g : Grid R) (b : Bot R W)
      → ((i j : ℕ) → i < g.count → j < g.count → c.reserved_uuid i ≡ c.reserved_uuid j → i ≡ j)
      → is_reserved_now (ad.get_exchange c.exchange) c.ticker b.world ≡ true
      → let (res, b') = execute_grid_orders ad c g b in
        let leg = grid_leg (ad.get_exchange c.exchange) c.ticker g in
        (counts : ℕ × ℕ) × (res ≡ val counts)
        × (counts.0 + counts.1 ≡ g.count)
        × (b'.world ≡ b.world)
        × AreKept (waiting_batch c) leg 0 g.count b.book b'.book (counts.0)
  unfolding execute_grid_orders execute_order_batch AllKept
  execute_grid_orders_reserved ad c g b distinct closed =
      let ex = ad.get_exchange c.exchange in
      let leg = grid_leg ex c.ticker g in
      let (counts, b', e, every, same, kept) =
        run_legs-AllKept ad c leg g.count distinct 0 g.count b (omega arith)
          (grid_leg_heard ex c.ticker g) in
      rw (closed, e) (counts, refl, every, same, kept)

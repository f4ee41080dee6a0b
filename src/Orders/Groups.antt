-- ===== src/Orders/Groups.antt =====
-- The numbers of groups of orders: `get_next_group_no` and `get_orders_by_group_no` of
-- src/core/order_manager.py. The numbers of the trades that `read_trades` gives are a parameter.
use supabot.Base.{
  Bool-cases, List, Option, Option-cases, String, [], arith, false, filter, inl, inr, map, max,
  nat_beq, none, refl, some, string_eq, suc, zero, ℕ, ◌&&◌, ◌++◌, ◌+◌, ◌==◌, ◌∷◌, ◌≡◌, ◌≤◌,
}
use supabot.Orders.Defs.{Manager, Order}
use supabot.Orders.Manager.{all_orders}

-- `max(nums) + 1`, and 1 for no numbers.
abbrev pub next_above : List ℕ → ℕ
next_above [] = 1
next_above (n ∷ ns) = let rest = next_above ns in max (n + 1) rest

-- A number that a test takes for true.
abbrev pub group_nos : List (Option ℕ) → List ℕ
group_nos [] = []
group_nos (none ∷ rest) = group_nos rest
group_nos (some zero ∷ rest) = group_nos rest
group_nos (some (suc n) ∷ rest) = suc n ∷ group_nos rest

pub next_above_pos : (ns : List ℕ) → 1 ≤ next_above ns
next_above_pos [] = omega arith
next_above_pos (n ∷ ns) = ground (arith, next_above_pos ns)

module _ {R : Type 0} where
  unfoldable pub get_next_group_no : String → List (Option ℕ) → Manager R → ℕ
  get_next_group_no user trades m = next_above (
      group_nos (map (λ o. o.group_no) (filter (λ o. o.user_id == user) (all_orders m)))
      ++ group_nos trades)

  unfoldable pub get_orders_by_group_no : String → ℕ → Manager R → List (Order R)
  get_orders_by_group_no user number m =
      filter
        (λ o. o.user_id == user && elim o.group_no [ none ↦ false | some n ↦ nat_beq n number ])
        (all_orders m)

  used_below :
      (user : String) (ys : List ℕ) (os : List (Order R))
      → (next : ℕ)
      → next_above (group_nos (map (λ o. o.group_no) (filter (λ o. o.user_id == user) os)) ++ ys)
        ≤ next
      → filter
          (λ o. o.user_id == user && elim o.group_no [ none ↦ false | some n ↦ nat_beq n next ])
          os
        ≡ []
  used_below user ys [] next h = refl
  used_below user ys (o ∷ os) next h = elim (Bool-cases (o.user_id == user)) [
    | inr other ↦ ground (arith, other, used_below user ys os next)
    | inl own ↦ elim (Option-cases o.group_no) [
      | inl e ↦ ground (arith, own, e, used_below user ys os next)
      | inr (zero, e) ↦ ground (
        arith,
        own,
        e,
        used_below user ys os next,
        next_above_pos
            (group_nos (map (λ o. o.group_no) (filter (λ o. o.user_id == user) os)) ++ ys),
      )
      | inr (suc n, e) ↦ ground (arith, own, e, used_below user ys os next)
    ]
  ]

  -- The number of a new group is not that of a group which the user has in the book, and it is at
  -- least 1.
  pub next_group_free :
      (user : String) (trades : List (Option ℕ)) (m : Manager R)
      → let next = get_next_group_no user trades m in
        (1 ≤ next) × (get_orders_by_group_no user next m ≡ [])
  unfolding get_next_group_no get_orders_by_group_no
  next_group_free user trades m = (
    next_above_pos (
        group_nos (map (λ o. o.group_no) (filter (λ o. o.user_id == user) (all_orders m)))
        ++ group_nos trades),
    used_below user (group_nos trades) (all_orders m) (get_next_group_no user trades m)
        (omega arith),
  )

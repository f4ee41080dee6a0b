-- ===== src/Orders/Replace.antt =====
-- A new uuid for an order, the removal of a user's orders, and a reload, in src/core/order_manager.py.
use supabot.Base.{
  ==_iff, All, Bool-cases, List, Option, Option-cases, String, [], ap, arith, elem, elem-filter,
  false, if◌then◌else◌, inl, inr, nat_beq, nat_beq_iff, nat_eq, none, not, refl, some, string_eq,
  true, ℕ, ◌==◌, ◌∙◌, ◌∷◌, ◌≡◌, ◌≢◌,
}
use supabot.Base.Float.{Float}
use supabot.Orders.Defs.{Manager, Order, at}
use supabot.Orders.Manager.{
  clear_user_orders, load, reload, renamed, replace_order_uuid, track, unindex,
}
use supabot.Orders.Index.{IsIndexed, get_order_by_uuid_lem, track-IsIndexed}

module _ {R : Type 0} where
  -- The new uuid is not that of another order.
  pub replace_order_uuid-IsIndexed :
      ⦃f : Float R⦄ (old new : String) (now : R) (m : Manager R)
      → IsIndexed m
      → (old ≢ new → m.by_uuid new ≡ none)
      → IsIndexed (replace_order_uuid old new now m).1
  unfolding replace_order_uuid renamed
  replace_order_uuid-IsIndexed old new now m w free =
      rw (get_order_by_uuid_lem old m w) (elim (Option-cases (m.by_uuid old)) [
        | inl e ↦ rw e w
        | inr (b, e) ↦ rw e (record {
          listed =
              λ v a h. ground (arith, w.listed v a, w.listed old b e, ==_iff old v, ==_iff new v);
          keyed = λ v a h.
              ground
                (arith, w.keyed v a, w.keyed old b e, ==_iff old v, ==_iff new v, nat_beq_iff b a);
          indexed = λ a h. ground (
            arith,
            w.indexed a h,
            w.keyed old b e,
            free,
            nat_beq_iff b a,
            ==_iff new new,
            ==_iff old (m.heap a).uuid,
            ==_iff new (m.heap a).uuid,
            ==_iff old new,
          );
          members = λ v. ground (arith, w.members v);
          allocated = w.allocated;
        })
      ])

  unindex_lem :
      {V : Type 0} (heap : ℕ → Order R) (user : String) (v : V) (xs : List ℕ) (f : String → V)
      (u : String)
      → ((a : ℕ) → elem a xs ≡ true → (heap a).user_id ≡ user → (heap a).uuid ≡ u → ⊥)
      → unindex heap user v xs f u ≡ f u
  unindex_lem heap user v [] f u none_has = refl
  unindex_lem heap user v (x ∷ xs) f u none_has =
      unindex_lem heap user v xs (if (heap x).user_id == user then at f (heap x).uuid v else f) u
        (λ a h. none_has a (ground arith))
      ∙ ground
          (arith, none_has x, ==_iff (heap x).user_id user, ==_iff (heap x).uuid u, nat_beq_iff x x)

  unindex_at :
      {V : Type 0} (heap : ℕ → Order R) (user : String) (v : V) (xs : List ℕ) (f : String → V)
      (u : String)
      → f u ≡ v
      → unindex heap user v xs f u ≡ v
  unindex_at heap user v [] f u h = h
  unindex_at heap user v (x ∷ xs) f u h =
      unindex_at heap user v xs (if (heap x).user_id == user then at f (heap x).uuid v else f) u
        (ground arith)

  unindex_hit :
      {V : Type 0} (heap : ℕ → Order R) (user : String) (v : V) (xs : List ℕ) (f : String → V)
      (a : ℕ)
      → elem a xs ≡ true
      → (heap a).user_id ≡ user
      → unindex heap user v xs f (heap a).uuid ≡ v
  unindex_hit heap user v [] f a h own = cc
  unindex_hit heap user v (x ∷ xs) f a h own = elim (Bool-cases (nat_beq x a)) [
    | inl same ↦
        unindex_at heap user v xs (if (heap x).user_id == user then at f (heap x).uuid v else f)
          (heap a).uuid
          (ground (
            arith,
            nat_beq_iff x a,
            ==_iff (heap x).user_id user,
            ==_iff (heap a).uuid (heap a).uuid,
          ))
    | inr other ↦
        unindex_hit heap user v xs (if (heap x).user_id == user then at f (heap x).uuid v else f) a
          (ground arith) own
  ]

  -- The index after the removal of a user's orders: none of theirs, and the others as before.
  pub unindex_all :
      {V : Type 0} (m : Manager R) (user : String) (v : V) (f : String → V) (u : String)
      → IsIndexed m
      → (m.by_uuid u ≡ none → f u ≡ v)
      → unindex m.heap user v m.orders f u
        ≡ elim (m.by_uuid u) [ none ↦ v | some a ↦ if (m.heap a).user_id == user then v else f u ]
  unindex_all m user v f u w gone = elim (Option-cases (m.by_uuid u)) [
    | inl e ↦ rw e (unindex_at m.heap user v m.orders f u (gone e))
    | inr (b, e) ↦ rw e (elim (Bool-cases ((m.heap b).user_id == user)) [
      | inl own ↦ rw own (
          rw (w.keyed u b e) at (
            unindex_hit m.heap user v m.orders f b (w.listed u b e)
              ((==_iff (m.heap b).user_id user).0 own)))
      | inr foreign ↦ rw foreign (
          unindex_lem m.heap user v m.orders f u λ a h own key.
            ground (arith, w.indexed a h, ==_iff (m.heap b).user_id user, ap m.by_uuid key))
    ])
  ]

  -- When the orders of a user are dropped, the index and the list still agree.
  pub clear_user_orders-IsIndexed :
      (user : String) (m : Manager R) → IsIndexed m → IsIndexed (clear_user_orders user m).1
  unfolding clear_user_orders
  clear_user_orders-IsIndexed user m w =
      let index = λ (u : String). unindex_all m user none m.by_uuid u w (λ e. e) in
      let set =
        λ (u : String). unindex_all m user false m.uuid_set u w (λ e. rw (w.members u, e) refl) in
      record {
        listed = λ v a h. ground (
          arith,
          index v,
          w.listed v a,
          elem-filter (λ b. not ((m.heap b).user_id == user)) a m.orders,
        );
        keyed = λ v a h. ground (arith, index v, w.keyed v a);
        indexed = λ a h. ground (
          arith,
          index (m.heap a).uuid,
          w.indexed a,
          elem-filter (λ b. not ((m.heap b).user_id == user)) a m.orders,
        );
        members = λ v. ground (arith, index v, set v, w.members v);
        allocated = λ a h.
            ground (
              arith,
              w.allocated a,
              elem-filter (λ b. not ((m.heap b).user_id == user)) a m.orders,
            );
      }

  -- Rows with pairwise different uuids, none of which is tracked.
  abbrev pub AreNew : List (Order R) → (String → Option ℕ) → Type 0
  AreNew [] f = Unit
  AreNew (o ∷ rows) f = (f o.uuid ≡ none) × All (λ p. p.uuid ≢ o.uuid) rows × AreNew rows f

  AreNew-at :
      (rows : List (Order R)) (f : String → Option ℕ) (u : String) (a : ℕ)
      → AreNew rows f
      → All (λ p. p.uuid ≢ u) rows
      → AreNew rows (at f u (some a))
  AreNew-at [] f u a h ne = tt
  AreNew-at (o ∷ rows) f u a h ne =
      (ground (arith, ==_iff u o.uuid), h.1, AreNew-at rows f u a h.2 ne.1)

  load-IsIndexed :
      (rows : List (Order R)) (m : Manager R)
      → IsIndexed m
      → AreNew rows m.by_uuid
      → IsIndexed (load rows m)
  load-IsIndexed [] m w new = w
  load-IsIndexed (o ∷ rows) m w new =
      load-IsIndexed rows (track o m) (track-IsIndexed o m w new.0)
        (AreNew-at rows m.by_uuid o.uuid m.next new.2 new.1)

  -- After a reload of rows with pairwise different uuids the index and the list agree, whatever the
  -- book was before. (`uuid` is the key of the table.)
  pub reload-IsIndexed :
      (rows : List (Order R)) (m : Manager R) → AreNew rows (λ _. none) → IsIndexed (reload rows m)
  unfolding reload
  reload-IsIndexed rows m new =
      load-IsIndexed rows (record m { orders = []; by_uuid = λ _. none; uuid_set = λ _. false })
        (record {
          listed = λ u a h. cc;
          keyed = λ u a h. cc;
          indexed = λ a h. cc;
          members = λ u. refl;
          allocated = λ a h. cc;
        })
        new

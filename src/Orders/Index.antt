-- ===== src/Orders/Index.antt =====
-- The agreement of the index of `OrderManager` with its list.
use supabot.Base.{
  ==_iff, Bool, Bool-cases, List, Option, Option-cases, String, [], ap, arith, elem, elem-append,
  elem-filter, false, inl, inr, nat_beq_iff, nat_eq, none, not, refl, some, string_eq, true, ℕ, ◌<◌,
  ◌==◌, ◌∷◌, ◌≡◌,
}
use supabot.Base.Float.{Float}
use supabot.Orders.Defs.{Manager, NewOrder, Order}
use supabot.Orders.Manager.{
  add_order, get_order_by_uuid, new_order, remove_order, scan, track, update_order,
}

abbrev pub is_some {ℓ} : {A : Type ℓ} → Option A → Bool
is_some none = false
is_some (some a) = true

-- Each uuid in the index leads to the one order of the list that has it, every order of the list is
-- in the index, and the set of uuids holds the keys of the index.
pub record IsIndexed {R : Type 0} (m : Manager R) : Type 0 where
  pub listed : (u : String) (a : ℕ) → m.by_uuid u ≡ some a → elem a m.orders ≡ true
  pub keyed : (u : String) (a : ℕ) → m.by_uuid u ≡ some a → (m.heap a).uuid ≡ u
  pub indexed : (a : ℕ) → elem a m.orders ≡ true → m.by_uuid (m.heap a).uuid ≡ some a
  pub members : (u : String) → m.uuid_set u ≡ is_some (m.by_uuid u)
  pub allocated : (a : ℕ) → elem a m.orders ≡ true → a < m.next

module _ {R : Type 0} where
  scan_sound :
      (heap : ℕ → Order R) (u : String) (xs : List ℕ) (a : ℕ)
      → scan heap u xs ≡ some a
      → (elem a xs ≡ true) × ((heap a).uuid ≡ u)
  scan_sound heap u [] a h = cc
  scan_sound heap u (x ∷ xs) a h = elim (Bool-cases ((heap x).uuid == u)) [
    | inl e ↦ ground (arith, ==_iff (heap x).uuid u, nat_beq_iff x a)
    | inr n ↦ let tail = scan_sound heap u xs a (rw n at h) in (ground (arith, tail.0), tail.1)
  ]

  scan-none :
      (m : Manager R) (u : String)
      → IsIndexed m
      → m.by_uuid u ≡ none
      → scan m.heap u m.orders ≡ none
  scan-none m u w h = elim (Option-cases (scan m.heap u m.orders)) [
    | inl e ↦ e
    | inr (a, e) ↦
        let (inside, key) = scan_sound m.heap u m.orders a e in
        cc (w.indexed a inside, ap m.by_uuid key, h)
  ]

  -- With the index in order the fallback scan finds nothing, and nothing is changed.
  pub get_order_by_uuid_lem :
      (u : String) (m : Manager R) → IsIndexed m → get_order_by_uuid u m ≡ (m.by_uuid u, m)
  unfolding get_order_by_uuid
  get_order_by_uuid_lem u m w = elim (Option-cases (m.by_uuid u)) [
    | inl e ↦ rw (e, get_order_by_uuid) (rw (scan-none m u w e) refl)
    | inr (a, e) ↦ rw (e, get_order_by_uuid) refl
  ]

  pub remove_order-IsIndexed :
      (u : String) (save : Bool) (m : Manager R) → IsIndexed m → IsIndexed (remove_order u save m).1
  unfolding remove_order
  remove_order-IsIndexed u save m w = record {
    listed = λ v a h. ground (
      arith,
      elem-filter (λ b. not ((m.heap b).uuid == u)) a m.orders,
      w.listed v a,
      w.keyed v a,
      ==_iff u v,
      ==_iff (m.heap a).uuid u,
    );
    keyed = λ v a h. ground (arith, w.keyed v a, ==_iff u v);
    indexed = λ a h. ground (
      arith,
      elem-filter (λ b. not ((m.heap b).uuid == u)) a m.orders,
      w.indexed a,
      ==_iff (m.heap a).uuid u,
      ==_iff u (m.heap a).uuid,
    );
    members = λ v. ground (arith, w.members v);
    allocated = λ a h.
        ground (arith, elem-filter (λ b. not ((m.heap b).uuid == u)) a m.orders, w.allocated a);
  }

  -- An order whose uuid nothing tracks.
  pub track-IsIndexed :
      (o : Order R) (m : Manager R) → IsIndexed m → m.by_uuid o.uuid ≡ none → IsIndexed (track o m)
  track-IsIndexed o m w new = record {
    listed = λ v a h. ground (
      arith,
      elem-append a m.orders (m.next ∷ []),
      w.listed v a,
      ==_iff o.uuid v,
      nat_beq_iff m.next a,
    );
    keyed = λ v a h.
        ground
          (arith, w.keyed v a, w.listed v a, w.allocated a, ==_iff o.uuid v, nat_beq_iff m.next a);
    indexed = λ a h. ground (
      arith,
      elem-append a m.orders (m.next ∷ []),
      w.indexed a,
      w.allocated a,
      ==_iff o.uuid (m.heap a).uuid,
      ==_iff o.uuid o.uuid,
      nat_beq_iff m.next a,
    );
    members = λ v. ground (arith, w.members v);
    allocated = λ a h.
        ground (arith, elem-append a m.orders (m.next ∷ []), w.allocated a, nat_beq_iff m.next a);
  }

  pub remove_order-untracks :
      (u : String) (save : Bool) (m : Manager R) → (remove_order u save m).1.by_uuid u ≡ none
  unfolding remove_order
  remove_order-untracks u save m = ground (arith, ==_iff u u)

  pub add_order-IsIndexed :
      ⦃f : Float R⦄ (n : NewOrder R) (now : R) (m : Manager R)
      → IsIndexed m
      → IsIndexed (add_order n now m).0
  unfolding add_order new_order
  add_order-IsIndexed n now m w =
      track-IsIndexed (new_order n now) (remove_order n.uuid false m).1
        (remove_order-IsIndexed n.uuid false m w) (remove_order-untracks n.uuid false m)

  -- A change that leaves the uuid alone.
  pub update_order-IsIndexed :
      (u : String) (change : Order R → Order R) (m : Manager R)
      → IsIndexed m
      → ((o : Order R) → (change o).uuid ≡ o.uuid)
      → IsIndexed (update_order u change m).1
  unfolding update_order
  update_order-IsIndexed u change m w keeps =
      rw (get_order_by_uuid_lem u m w) (elim (Option-cases (m.by_uuid u)) [
        | inl e ↦ rw e w
        | inr (b, e) ↦ rw e (record {
          listed = w.listed;
          keyed = λ v a h. ground (arith, w.keyed v a, keeps (m.heap b), nat_beq_iff b a);
          indexed = λ a h. ground (arith, w.indexed a, keeps (m.heap b), nat_beq_iff b a);
          members = w.members;
          allocated = w.allocated;
        })
      ])

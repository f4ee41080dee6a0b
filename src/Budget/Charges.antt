-- ===== src/Budget/Charges.antt =====
-- The purchases that a ledger charges to an epoch, against the uuids that are remembered.
use supabot.Base.{
  ==_iff, ==_self, Bool, Bool-cases, List, Option, String, [], any, arith, false, inl, inr, ltb,
  nat_beq, nat_beq_iff, none, not, refl, some, string_eq, subst, true, ℕ, ◌&&◌, ◌++◌, ◌==◌, ◌∙◌,
  ◌∷◌, ◌≡◌, ◌⊎◌,
}
use supabot.Base.Float.{Float}
use supabot.Base.Dict.{Dict}
use supabot.Budget.Defs.{Book, Entry, OrderRow, Params, Template, TradeRow, mem_text, text_or}
use supabot.Budget.Plan.{epoch_of}
use supabot.Budget.Ledger.{spend_for_buy}
use supabot.Budget.Rows.{
  Run, cost_of, group_of, inherit_all, is_chargeable, is_new_trade, number_or, pending_by_uuid,
  raise_group, reorder_map,
}
use supabot.Budget.Events.{
  charge, charge_all, charge_order, charge_orders, charge_trade, charge_trades,
}
use supabot.Budget.Repeat.{is_spend}

abbrev pub is_uuid : Option String → String → Bool
is_uuid none u = false
is_uuid (some v) u = v == u

mem_text-append_split :
    (u v : String) (us : List String)
    → mem_text u (us ++ v ∷ []) ≡ true
    → (mem_text u us ≡ true) ⊎ (v ≡ u)
mem_text-append_split u v [] h = inr ((==_iff v u).0 (ground arith))
mem_text-append_split u v (w ∷ us) h = elim (Bool-cases (w == u)) [
  | inl same ↦ inl (rw same refl)
  | inr other ↦ ground (arith, mem_text-append_split u v us)
]

nothing_remembered : (u : String) (us : List String) → us ≡ [] → mem_text u us ≡ true → ⊥
nothing_remembered u [] e h = cc
nothing_remembered u (v ∷ us) e h = cc

module _ {R : Type 0} where
  -- The ledger charges a purchase with the uuid to the epoch.
  abbrev pub is_charged : ℕ → String → List (Entry R) → Bool
  is_charged epoch u =
      any (λ e. is_spend e.entry_type && (nat_beq e.budget_epoch epoch && is_uuid e.order_uuid u))

  -- All the uuids that are remembered are those of purchases charged to the epoch.
  abbrev pub AllCharged : ℕ → Run R → Type 0
  AllCharged epoch s =
      (epoch_of s.book.params ≡ epoch)
      × ((u : String) → mem_text u s.accounted ≡ true → is_charged epoch u s.book.ledger ≡ true)

  epoch-raise_group : (g : ℕ) (p : Params R) → epoch_of (raise_group g p) ≡ epoch_of p
  epoch-raise_group g p = elim (Bool-cases (ltb (number_or p.last_group_no 0) g)) [
    | inl higher ↦ rw higher refl
    | inr lower ↦ rw lower refl
  ]

  inherit_all_none :
      (d : Dict String (OrderRow R)) (s : Run R) → s.accounted ≡ [] → inherit_all d s ≡ s
  inherit_all_none [] s h = refl
  inherit_all_none ((old, o) ∷ d) s h =
      let left : (mem_text old s.accounted && not (mem_text o.uuid s.accounted)) ≡ false =
        rw h refl in
      rw left (inherit_all_none d s h)

module _ {R : Type 0} ⦃f : Float R⦄ (insert_row : Entry R → List (Entry R) → List (Entry R))
    (kept : (e : Entry R) (l : List (Entry R)) → insert_row e l ≡ e ∷ l) (t : Template R)
    (epoch : ℕ) where
  pub any_row :
      (e : Entry R) (l : List (Entry R)) (u : String)
      → is_charged epoch u l ≡ true
      → is_charged epoch u (insert_row e l) ≡ true
  any_row e l u h = rw (kept e l, h) (ground arith)

  this_row :
      (e : Entry R) (l : List (Entry R)) (u v : String)
      → (is_spend e.entry_type && is_uuid e.order_uuid u) ≡ true
      → e.budget_epoch ≡ epoch
      → u ≡ v
      → is_charged epoch v (insert_row e l) ≡ true
  this_row e l u v row same e' =
      subst (λ w. is_charged epoch w (insert_row e l) ≡ true) e'
        (rw (kept e l) (ground (arith, nat_beq_iff e.budget_epoch epoch)))

  charge-AllCharged :
      (cost : R) (ticker : String) (group : Option ℕ) (u : String) (s : Run R)
      → AllCharged epoch s
      → AllCharged epoch (charge insert_row t cost ticker group u s)
  unfolding spend_for_buy
  charge-AllCharged cost ticker group u s h =
      let g = group_of group s.book.params in
      let spent =
        (spend_for_buy insert_row t cost (text_or ticker t.ticker) g u none none true s.book).1 in
      (
        epoch-raise_group g spent.params ∙ h.0,
        λ v m. elim (mem_text-append_split v u s.accounted m) [
          | inl old ↦ any_row _ s.book.ledger v (h.1 v old)
          | inr new ↦ this_row _ s.book.ledger u v (==_self u) h.0 new
        ],
      )

  charge_order-AllCharged :
      (o : OrderRow R) (s : Run R)
      → AllCharged epoch s
      → AllCharged epoch (charge_order insert_row t o s)
  charge_order-AllCharged o s h = elim (Bool-cases (is_chargeable o s.accounted)) [
    | inl new ↦ rw new (charge-AllCharged (cost_of o.price o.volume) o.ticker o.group_no o.uuid s h)
    | inr old ↦ rw old h
  ]

  charge_orders-AllCharged :
      (os : List (OrderRow R)) (s : Run R)
      → AllCharged epoch s
      → AllCharged epoch (charge_orders insert_row t os s)
  unfolding charge_orders
  charge_orders-AllCharged [] s h = h
  charge_orders-AllCharged (o ∷ os) s h =
      charge_orders-AllCharged os (charge_order insert_row t o s) (charge_order-AllCharged o s h)

  charge_trade-AllCharged :
      (trade : TradeRow R) (s : Run R)
      → AllCharged epoch s
      → AllCharged epoch (charge_trade insert_row t trade s)
  charge_trade-AllCharged trade s h = elim (Bool-cases (is_new_trade trade s.accounted)) [
    | inl new ↦ rw new (
        charge-AllCharged (cost_of trade.price trade.volume) trade.ticker trade.group_no trade.uuid
          s h)
    | inr old ↦ rw old h
  ]

  charge_trades-AllCharged :
      (trades : List (TradeRow R)) (s : Run R)
      → AllCharged epoch s
      → AllCharged epoch (charge_trades insert_row t trades s)
  unfolding charge_trades
  charge_trades-AllCharged [] s h = h
  charge_trades-AllCharged (trade ∷ trades) s h =
      charge_trades-AllCharged trades (charge_trade insert_row t trade s)
        (charge_trade-AllCharged trade s h)

  -- From a book that remembers no purchase.
  pub charge_all-AllCharged :
      (orders : List (OrderRow R)) (trades : List (TradeRow R)) (dirty : Bool) (b : Book R)
      → b.params.accounted_buy_order_uuids ≡ []
      → epoch_of b.params ≡ epoch
      → AllCharged epoch (charge_all insert_row t orders trades dirty b)
  unfolding charge_all
  charge_all-AllCharged orders trades dirty b forgotten same =
      let start : Run R = record {
        book = b;
        accounted = b.params.accounted_buy_order_uuids;
        pending = pending_by_uuid b.params.pending_buy_orders [];
        dirty = dirty;
      } in
      charge_trades-AllCharged trades _ (
        charge_orders-AllCharged orders _ (
          rw (inherit_all_none (reorder_map orders []) start forgotten) (
            same,
            λ u m. absurd (nothing_remembered u b.params.accounted_buy_order_uuids forgotten m),
          )))

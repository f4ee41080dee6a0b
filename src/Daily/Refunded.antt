-- ===== src/Daily/Refunded.antt =====
-- How often a pending purchase is refunded, and what the refunds make of the budget.
use supabot.Base.{
  ==_iff, All, Bool, Bool-cases, List, String, [], any, ap, arith, false, if_both, if◌then◌else◌,
  inl, inr, ltb, map, nat_eq, none, refl, some, string_eq, subst, sym, true, ℕ, ◌&&◌, ◌==◌, ◌∙◌,
  ◌∷◌, ◌≡◌,
}
use supabot.Daily.Reconcile.{
  PendingFate, given_back, has_group, is_some_pending, pending_fate, put_off, reconcile, rows_of,
  settled, sort_pending, sorted_out,
}
use supabot.Base.Float.{Float, int_float}
use supabot.Base.Int.{+ℤ_parts, -ℤ_parts, eq_of_parts, leb_ℤ, ltb_ℤ, pos, ℤ, ◌*ℤ◌, ◌+ℤ◌, ◌-ℤ◌}
use supabot.Base.Dict.{Dict, lookup}
use supabot.Budget.Defs.{Book, Entry, OrderRow, Params, Pending, Template, TradeRow}
use supabot.Budget.Plan.{carryover_of, epoch_of, spent_of}
use supabot.Budget.Ledger.{refund_cancelled_orders, refund_of, refund_order, refund_orders}

not_both : (a b : Bool) → (a && b) ≡ false → b ≡ true → a ≡ false
not_both true b both yes_b = cc
not_both false b both yes_b = refl

module _ {R : Type 0} where
  abbrev pub has_uuid : String → List (Pending R) → Bool
  has_uuid u ps = any (λ pb. pb.uuid == u) ps

  -- No two pending purchases have the same uuid.
  abbrev pub AreDistinct : List (Pending R) → Type 0
  AreDistinct [] = Unit
  AreDistinct (pb ∷ rest) = (has_uuid pb.uuid rest ≡ false) × AreDistinct rest

  sorted_out-has :
      (fate : PendingFate R) (u : String) (pb : Pending R)
      (lists : List (Pending R) × List (Pending R))
      → (pb.uuid == u) ≡ false
      → let (back, waiting) = sorted_out fate pb lists in
        (has_uuid u back ≡ has_uuid u lists.0) × (has_uuid u waiting ≡ has_uuid u lists.1)
  sorted_out-has put_off u pb (back, waiting) other = (refl, rw other refl)
  sorted_out-has settled u pb (back, waiting) other = (refl, refl)
  sorted_out-has (given_back filled) u pb (back, waiting) other = (rw other refl, refl)

module _ {R : Type 0} ⦃f : Float R⦄ (rows : Dict String (OrderRow R))
    (trades : List (TradeRow R)) where
  sort_pending-none :
      (u : String) (ps : List (Pending R))
      → has_uuid u ps ≡ false
      → let (back, waiting) = sort_pending rows trades ps in
        (has_uuid u back ≡ false) × (has_uuid u waiting ≡ false)
  unfolding sort_pending
  sort_pending-none u [] h = (refl, refl)
  sort_pending-none u (pb ∷ ps) h =
      let other : (pb.uuid == u) ≡ false = ground arith in
      let (kept_back, kept_waiting) =
        sorted_out-has (pending_fate rows trades pb) u pb (sort_pending rows trades ps) other in
      let (no_back, no_waiting) = sort_pending-none u ps (ground arith) in
      (kept_back ∙ no_back, kept_waiting ∙ no_waiting)

  -- The head of the list, whose uuid is not in the rest.
  head_once :
      (fate : PendingFate R) (pb : Pending R) (lists : List (Pending R) × List (Pending R))
      → has_uuid pb.uuid lists.0 ≡ false
      → has_uuid pb.uuid lists.1 ≡ false
      → let (back, waiting) = sorted_out fate pb lists in
        (has_uuid pb.uuid back && has_uuid pb.uuid waiting) ≡ false
  head_once put_off pb (back, waiting) nb nw = rw nb refl
  head_once settled pb (back, waiting) nb nw = rw nb refl
  head_once (given_back filled) pb (back, waiting) nb nw = rw nw (ground arith)

  sort_pending-once :
      (u : String) (ps : List (Pending R))
      → AreDistinct ps
      → let (back, waiting) = sort_pending rows trades ps in
        (has_uuid u back && has_uuid u waiting) ≡ false
  unfolding sort_pending
  sort_pending-once u [] h = refl
  sort_pending-once u (pb ∷ ps) h =
      let lists = sort_pending rows trades ps in
      let fate = pending_fate rows trades pb in
      elim (Bool-cases (pb.uuid == u)) [
        | inl same ↦
            let (nb, nw) = sort_pending-none pb.uuid ps h.0 in
            subst
              (λ v.
                (has_uuid v (sorted_out fate pb lists).0 && has_uuid v (sorted_out fate pb lists).1)
                ≡ false)
              ((==_iff pb.uuid u).0 same) (head_once fate pb lists nb nw)
        | inr other ↦
            let (b, w) = sorted_out-has fate u pb lists other in
            rw (b, w) (sort_pending-once u ps h.1)
      ]

  -- A purchase that the bot has yet to cancel is put off.
  fate_requested :
      (pb : Pending R) (o : OrderRow R)
      → lookup pb.uuid rows ≡ some o
      → (o.status == "cancel_requested") ≡ true
      → pending_fate rows trades pb ≡ put_off
  unfolding pending_fate
  fate_requested pb o found requested = rw (found, requested, pending_fate) refl

  sort_pending-waits :
      (u : String) (o : OrderRow R) (ps : List (Pending R))
      → lookup u rows ≡ some o
      → (o.status == "cancel_requested") ≡ true
      → has_uuid u ps ≡ true
      → has_uuid u (sort_pending rows trades ps).1 ≡ true
  unfolding sort_pending
  sort_pending-waits u o [] found requested h = cc
  sort_pending-waits u o (pb ∷ ps) found requested h =
      let lists = sort_pending rows trades ps in
      elim (Bool-cases (pb.uuid == u)) [
        | inl same ↦
            let e =
              fate_requested pb o (ap (λ v. lookup v rows) ((==_iff pb.uuid u).0 same) ∙ found)
                requested in
            subst (λ fate. has_uuid u (sorted_out fate pb lists).1 ≡ true) (sym e) (rw same refl)
        | inr other ↦
            (sorted_out-has (pending_fate rows trades pb) u pb lists other).1
            ∙ sort_pending-waits u o ps found requested (rw other at h)
      ]

  -- Of pending purchases with different uuids none is both refunded and left pending, so that a later
  -- batch does not refund it again; and one whose row says that the bot has yet to cancel it is
  -- left pending, and not refunded.
  pub refunded_once :
      (ps : List (Pending R)) (u : String)
      → AreDistinct ps
      → let (back, waiting) = sort_pending rows trades ps in
        ((has_uuid u back && has_uuid u waiting) ≡ false)
        × ((o : OrderRow R)
            → lookup u rows ≡ some o
            → o.status ≡ "cancel_requested"
            → has_uuid u ps ≡ true
            → (has_uuid u waiting ≡ true) × (has_uuid u back ≡ false))
  refunded_once ps u distinct = (
    sort_pending-once u ps distinct,
    λ o found requested listed.
        let waits =
          sort_pending-waits u o ps found ((==_iff o.status "cancel_requested").1 requested)
            listed in
        (waits, not_both _ _ (sort_pending-once u ps distinct) waits),
  )

module _ {R : Type 0} ⦃f : Float R⦄ where
  abbrev unfilled : Pending R → Pending R
  unfilled pb = record pb { filled_volume = f.of_ℕ 0 }

  blind :
      (ps : List (Pending R))
      → All (λ pb. f.lt (f.of_ℕ 0) pb.volume ≡ true) ps
      → sort_pending [] [] ps ≡ (map unfilled ps, [])
  unfolding sort_pending pending_fate
  blind [] h = refl
  blind (pb ∷ ps) h = rw (h.0, blind ps h.1) refl

  blind_refunds :
      (table : Entry R → List (Entry R) → List (Entry R)) (t : Template R) (pb : Pending R)
      (ps : List (Pending R)) (bought : List String) (b : Book R)
      → All (λ x. f.lt (f.of_ℕ 0) x.volume ≡ true) (pb ∷ ps)
      → let (b', bought', waiting, deleted) = reconcile table t none none none (pb ∷ ps) bought b in
        (b' ≡ refund_cancelled_orders table t (map unfilled (pb ∷ ps)) b) × (waiting ≡ [])
  unfolding reconcile
  blind_refunds table t pb ps bought b h =
      let none_read : (if any has_group (pb ∷ ps) then rows_of {A = TradeRow R} none else []) ≡ [] =
        if_both (λ (x : List (TradeRow R)). x ≡ []) (any has_group (pb ∷ ps)) [] [] refl refl in
      let refunded = refund_cancelled_orders table t (map unfilled (pb ∷ ps)) b in
      subst
        (λ (lists : List (Pending R) × List (Pending R)).
          ((if is_some_pending lists.0 then refund_cancelled_orders table t lists.0 b else b)
            ≡ refunded)
          × (lists.1 ≡ []))
        (sym (ap (λ known. sort_pending [] known (pb ∷ ps)) none_read ∙ blind (pb ∷ ps) h))
        (refl, refl)

-- A purchase of the running epoch, of a positive volume, that costs something.
abbrev pub IsOwed : ℕ → Pending ℤ → Type 0
IsOwed epoch pb =
    (ltb_ℤ (pos 0) pb.volume ≡ true)
    × (ltb_ℤ (pos 0) (pb.price *ℤ pb.volume) ≡ true)
    × (ltb pb.budget_epoch epoch ≡ false)

-- What the purchases cost in all.
abbrev pub full_cost : List (Pending ℤ) → ℤ
full_cost [] = pos 0
full_cost (pb ∷ ps) = pb.price *ℤ pb.volume +ℤ full_cost ps

less_nothing : (v : ℤ) → v -ℤ pos 0 ≡ v
less_nothing v = eq_of_parts (v -ℤ pos 0) v (omega (arith, -ℤ_parts v (pos 0)))

full_refund :
    (pb : Pending ℤ)
    → ltb_ℤ (pos 0) pb.volume ≡ true
    → refund_of (unfilled pb) ≡ pb.price *ℤ pb.volume
full_refund pb h = rw (less_nothing pb.volume, h) refl

module _ (table : Entry ℤ → List (Entry ℤ) → List (Entry ℤ)) (t : Template ℤ) (p : Params ℤ) where
  refund_order_adds :
      (o : Pending ℤ) (s : ℤ × ℤ × List (Entry ℤ))
      → leb_ℤ (refund_of o) (pos 0) ≡ false
      → ltb o.budget_epoch (epoch_of p) ≡ false
      → (refund_order table t p o s).0 ≡ s.0 +ℤ refund_of o
  refund_order_adds o (c, spent, ledger) positive_refund running =
      rw (positive_refund, running) refl

  refund_orders_add :
      (ps : List (Pending ℤ)) (s : ℤ × ℤ × List (Entry ℤ))
      → All (IsOwed (epoch_of p)) ps
      → (refund_orders table t p (map unfilled ps) s).0 ≡ s.0 +ℤ full_cost ps
  refund_orders_add [] s h = eq_of_parts s.0 (s.0 +ℤ pos 0) (omega (arith, +ℤ_parts (s.0) (pos 0)))
  refund_orders_add (pb ∷ ps) s ((bought, costs, running), rest) =
      let cost = pb.price *ℤ pb.volume in
      let refund = full_refund pb bought in
      let first = refund_order_adds (unfilled pb) s (rw refund (ground (arith, costs))) running in
      refund_orders_add ps (refund_order table t p (unfilled pb) s) rest
      ∙ rw (first, refund)
          (eq_of_parts (s.0 +ℤ cost +ℤ full_cost ps) (s.0 +ℤ (cost +ℤ full_cost ps)) (
            omega (
              arith,
              +ℤ_parts (s.0) cost,
              +ℤ_parts (s.0 +ℤ cost) (full_cost ps),
              +ℤ_parts cost (full_cost ps),
              +ℤ_parts (s.0) (cost +ℤ full_cost ps),
            )))

-- On whole amounts, where all three queries fail: pending purchases of the running epoch, of positive
-- volumes and costs, are all refunded in full, whatever has become of them, also if the bot has yet to
-- cancel one or it was filled. The balance grows by what they cost in all, and none stays pending.
pub refunds_blindly :
    (table : Entry ℤ → List (Entry ℤ) → List (Entry ℤ)) (t : Template ℤ) (pb : Pending ℤ)
    (ps : List (Pending ℤ)) (bought : List String) (b : Book ℤ)
    → All (IsOwed (epoch_of b.params)) (pb ∷ ps)
    → let (b', bought', waiting, deleted) = reconcile table t none none none (pb ∷ ps) bought b in
      (carryover_of b'.params ≡ carryover_of b.params +ℤ full_cost (pb ∷ ps)) × (waiting ≡ [])
unfolding refund_cancelled_orders
refunds_blindly table t pb ps bought b h =
    let (refunded, none_waiting) =
      blind_refunds table t pb ps bought b (h.0.0, bought_all ps h.1) in
    (
      ap (λ x. carryover_of x.params) refunded
          ∙ refund_orders_add table t b.params (pb ∷ ps)
              (carryover_of b.params, spent_of b.params, b.ledger) h,
      none_waiting,
    )
  where
    bought_all :
        (ps : List (Pending ℤ))
        → All (IsOwed (epoch_of b.params)) ps
        → All (λ x. ltb_ℤ (pos 0) x.volume ≡ true) ps
    bought_all [] h = tt
    bought_all (x ∷ xs) h = (h.0.0, bought_all xs h.1)

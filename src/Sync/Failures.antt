-- ===== src/Sync/Failures.antt =====
-- Counting failures: a submission that keeps failing, and an order that the exchange does not know.
use supabot.Base.{
  ==_iff, ==_self, Bool-cases, [], arith, false, if◌then◌else◌, inl, inr, leb, leb→le, ltb, ltb→lt,
  nat_eq, none, refl, some, string_eq, true, ℕ, ◌++◌, ◌+◌, ◌<◌, ◌∷◌, ◌≡◌, ◌≤◌, ◌⊎◌,
}
use supabot.Base.Float.{Float}
use supabot.Orders.Defs.{pending_reorder}
use supabot.Orders.Manager.{mark_reorder_pending, remove_order, update_next_check_at}
use supabot.Orders.Index.{IsIndexed}
use supabot.Sync.Defs.{Adapter, Bot, gave_up, submit_failed, val}
use supabot.Sync.Submit.{count_failed_submission}
use supabot.Sync.Fill.{is_reordered}
use supabot.Sync.Cycle.{status_unknown}
use supabot.Sync.Filled.{update_order_lem}

module _ {R W : Type 0} ⦃f : Float R⦄ where
  -- A submission has failed, for a tracked order: with the fifth failure in a row the order is given
  -- up, its count is reset and the user is told; before that the order stays tracked with one more
  -- failure. Nothing is sent to the exchange.
  pub count_failed_submission_outcome :
      (ad : Adapter R W) (a : ℕ) (b : Bot R W)
      → IsIndexed b.book
      → b.book.by_uuid (b.book.heap a).uuid ≡ some a
      → let o = b.book.heap a in
        let fails = b.reorder_failures o.uuid + 1 in
        let (res, b') = count_failed_submission ad o b in
        (res ≡ val tt)
        × (b'.world ≡ b.world)
        × (((5 ≤ fails)
              × (b'.book.by_uuid o.uuid ≡ none)
              × (b'.reorder_failures o.uuid ≡ 0)
              × (b'.notes ≡ b.notes ++ (o.user_id, gave_up) ∷ []))
            ⊎ ((fails < 5)
                × (b'.book.by_uuid o.uuid ≡ some a)
                × (b'.reorder_failures o.uuid ≡ fails)
                × (b'.notes ≡ b.notes ++ (o.user_id, submit_failed) ∷ [])))
  unfolding count_failed_submission update_next_check_at remove_order
  count_failed_submission_outcome ad a b w e =
      let o = b.book.heap a in
      let ex = ad.get_exchange o.exchange in
      let retry : R =
        (if ex.is_market_open o.ticker b.world
          then f.add (ad.now b.world) (f.of_ℕ 60)
          else ex.next_check_timestamp o.ticker b.world) in
      elim (Bool-cases (leb 5 (b.reorder_failures o.uuid + 1))) [
        | inl many ↦ rw many (
          refl,
          refl,
          inl (
            leb→le _ _ many,
            ground (arith, ==_iff o.uuid o.uuid),
            ground (arith, ==_iff o.uuid o.uuid),
            refl,
          ),
        )
        | inr few ↦
            rw (few, update_order_lem o.uuid a (λ p. record p { next_check_at = retry }) b.book w e)
              (refl, refl, inr (ground arith, e, ground (arith, ==_iff o.uuid o.uuid), refl))
      ]

  -- No answer came for a tracked order, at a market with sessions. Fewer than five times in a row:
  -- the book and the messages stay, and one more is counted. The fifth time the count is reset, and
  -- an order that is to be placed again waits for the next session, while another is dropped. The
  -- exchange is not called.
  pub status_unknown_outcome :
      (ad : Adapter R W) (a : ℕ) (b : Bot R W)
      → IsIndexed b.book
      → b.book.by_uuid (b.book.heap a).uuid ≡ some a
      → let o = b.book.heap a in
        let ex = ad.get_exchange o.exchange in
        let fails = b.status_failures o.uuid + 1 in
        ex.supports_reserved_orders ≡ true
        → let (res, b') = status_unknown ad a b in
          (res ≡ val tt)
          × (b'.world ≡ b.world)
          × (((fails < 5)
                × (b'.book ≡ b.book)
                × (b'.notes ≡ b.notes)
                × (b'.status_failures o.uuid ≡ fails))
              ⊎ ((5 ≤ fails)
                  × (is_reordered ex o ≡ true)
                  × (b'.book.by_uuid o.uuid ≡ some a)
                  × ((b'.book.heap a).status ≡ pending_reorder)
                  × (b'.status_failures o.uuid ≡ 0))
              ⊎ ((5 ≤ fails)
                  × (is_reordered ex o ≡ false)
                  × (b'.book.by_uuid o.uuid ≡ none)
                  × (b'.status_failures o.uuid ≡ 0)))
  unfolding status_unknown mark_reorder_pending remove_order
  status_unknown_outcome ad a b w e sup =
      let o = b.book.heap a in
      let ex = ad.get_exchange o.exchange in
      let t = ex.next_check_timestamp o.ticker b.world in
      elim (Bool-cases (ltb (b.status_failures o.uuid + 1) 5)) [
        | inl few ↦
            rw (sup, few)
              (refl, refl, inl (ltb→lt _ _ few, refl, refl, ground (arith, ==_iff o.uuid o.uuid)))
        | inr many ↦ elim (Bool-cases (is_reordered ex o)) [
          | inl again ↦
              rw
                (
                  again,
                  sup,
                  many,
                  update_order_lem o.uuid a
                      (λ p. record p { status = pending_reorder; next_check_at = t }) b.book w e,
                )
                (
                  refl,
                  refl,
                  inr (
                      inl (
                        ground arith,
                        refl,
                        e,
                        rw (==_self a) refl,
                        ground (arith, ==_iff o.uuid o.uuid),
                      )),
                )
          | inr dropped ↦
              rw (dropped, sup, many)
                (
                  refl,
                  refl,
                  inr (
                      inr (
                        ground arith,
                        refl,
                        ground (arith, ==_iff o.uuid o.uuid),
                        ground (arith, ==_iff o.uuid o.uuid),
                      )),
                )
        ]
      ]

-- ===== src/Sync/Ended.antt =====
-- Orders that an exchange has ended: cancelled or expired there, or filled after a new placement.
use supabot.Base.{
  ==_iff, ==_self, Bool-cases, String, [], ap, arith, false, inl, inr, length, length-append,
  nat_eq, none, refl, some, string_eq, true, ℕ, ◌++◌, ◌+◌, ◌∙◌, ◌∷◌, ◌≡◌,
}
use supabot.Base.Float.{Float}
use supabot.Orders.Defs.{Order, at, cancel, db_upsert, done, pending_reorder}
use supabot.Orders.Manager.{
  get_order_by_uuid, mark_reorder_pending, remove_order, renamed, replace_order_uuid,
}
use supabot.Orders.Index.{IsIndexed}
use supabot.Sync.Defs.{
  Adapter, Bot, Market, cancelled_outside, is_strategy_order, reorder_planned, val,
}
use supabot.Sync.Submit.{accept_submission}
use supabot.Sync.Fill.{conclude, is_reordered, process_order_fill, wants_linked_sell}
use supabot.Sync.Filled.{after_fill, process_more, process_same, report, update_order_lem}

module _ {R W : Type 0} ⦃f : Float R⦄ where
  finish_cancel :
      (ad : Adapter R W) (a : ℕ) (exec fee : R) (b : Bot R W)
      → is_reordered (ad.get_exchange (b.book.heap a).exchange) (b.book.heap a) ≡ false
      → let o = b.book.heap a in
        let (res, b') = conclude ad a (report cancel exec fee) false b in
        (res ≡ val tt)
        × (b'.book.by_uuid o.uuid ≡ none)
        × (b'.world ≡ b.world)
        × (b'.trades ≡ b.trades)
        × (b'.notes ≡ b.notes ++ (o.user_id, cancelled_outside) ∷ [])
  unfolding conclude remove_order
  finish_cancel ad a exec fee b n =
      rw n
        (refl, ground (arith, ==_iff (b.book.heap a).uuid (b.book.heap a).uuid), refl, refl, refl)

  -- A report that an order is cancelled, when it is neither a rsitrade purchase with a target nor to
  -- be placed again: the bot tells the user and tracks the order no more. It books no trade, however
  -- much of the order was executed.
  pub process_order_fill_cancel :
      (ad : Adapter R W) (a : ℕ) (exec fee : R) (b : Bot R W)
      → IsIndexed b.book
      → b.book.by_uuid (b.book.heap a).uuid ≡ some a
      → wants_linked_sell (b.book.heap a) ≡ false
      → is_reordered (ad.get_exchange (b.book.heap a).exchange) (b.book.heap a) ≡ false
      → let o = b.book.heap a in
        let (res, b') = process_order_fill ad a (report cancel exec fee) b in
        (res ≡ val tt)
        × (b'.book.by_uuid o.uuid ≡ none)
        × (b'.world ≡ b.world)
        × (b'.trades ≡ b.trades)
        × (b'.notes ≡ b.notes ++ (o.user_id, cancelled_outside) ∷ [])
  unfolding is_strategy_order
  process_order_fill_cancel ad a exec fee b w e wl n =
      let r = report cancel exec fee in
      elim (Bool-cases (f.lt (b.book.heap a).filled_volume exec)) [
        | inr same ↦ rw (process_same ad a r b same) (finish_cancel ad a exec fee b n)
        | inl l ↦
            let b2 = after_fill a r b in
            let (res, gone, world, trades, notes) =
              finish_cancel ad a exec fee b2 (rw (==_self a) n) in
            rw (process_more ad a r b w e wl l)
              (res, rw (==_self a) at gone, world, trades, rw (==_self a) at notes)
      ]

  -- The bot after the expiry of the order at the address.
  abbrev expired : Adapter R W → ℕ → Bot R W → Bot R W
  expired ad a b =
      let p = b.book.heap a in
      let t = (ad.get_exchange p.exchange).next_check_timestamp p.ticker b.world in
      let o = record p { status = pending_reorder; next_check_at = t } in
      record b {
        book = record (b.book) { heap = at b.book.heap a o };
        requests = b.requests ++ db_upsert o ∷ [];
        notes = b.notes ++ (p.user_id, reorder_planned) ∷ [];
      }

  -- A rsitrade purchase with a target, at a market with sessions, is placed again when it expires.
  rsi_reordered :
      (ex : Market R W) (o : Order R)
      → ex.supports_reserved_orders ≡ true
      → wants_linked_sell o ≡ true
      → is_reordered ex o ≡ true
  unfolding is_strategy_order
  rsi_reordered ex o sessions wanted =
      let rsi : o.strategy ≡ "rsitrade" = (==_iff o.strategy "rsitrade").0 (ground arith) in
      rw (sessions, rsi) refl

  process_order_fill_reorders :
      (ad : Adapter R W) (a : ℕ) (exec fee : R) (b : Bot R W)
      → IsIndexed b.book
      → b.book.by_uuid (b.book.heap a).uuid ≡ some a
      → f.lt (b.book.heap a).filled_volume exec ≡ false
      → is_reordered (ad.get_exchange (b.book.heap a).exchange) (b.book.heap a) ≡ true
      → process_order_fill ad a (report cancel exec fee) b ≡ (val tt, expired ad a b)
  unfolding conclude mark_reorder_pending
  process_order_fill_reorders ad a exec fee b w e same yes_again =
      let o = b.book.heap a in
      let t = (ad.get_exchange o.exchange).next_check_timestamp o.ticker b.world in
      rw
        (
          process_same ad a (report cancel exec fee) b same,
          yes_again,
          update_order_lem o.uuid a (λ p. record p { status = pending_reorder; next_check_at = t })
              b.book w e,
        )
        refl

  -- What a resubmission keeps: the address, and the volume that was filled before.
  accept_submission_keeps :
      (ad : Adapter R W) (a : ℕ) (u : String) (b : Bot R W)
      → b.book.by_uuid (b.book.heap a).uuid ≡ some a
      → let (res, b') = accept_submission ad (b.book.heap a) u b in
        (res ≡ val tt)
        × (b'.book.heap a ≡ renamed (b.book.heap a).uuid u (ad.now b.world) (b.book.heap a))
        × (b'.book.by_uuid u ≡ some a)
        × (b'.book.next ≡ b.book.next)
        × (b'.world ≡ b.world)
        × (b'.trades ≡ b.trades)
  unfolding accept_submission replace_order_uuid get_order_by_uuid
  accept_submission_keeps ad a u b e =
      rw e (refl, rw (==_self a) refl, rw (==_self u) refl, refl, refl, refl)

  finish_resubmitted :
      (ad : Adapter R W) (a : ℕ) (exec fee : R) (b : Bot R W)
      → f.lt (b.book.heap a).filled_volume exec ≡ false
      → let o = b.book.heap a in
        let (res, b') = process_order_fill ad a (report done exec fee) b in
        (res ≡ val tt)
        × (b'.book.by_uuid o.uuid ≡ none)
        × (b'.book.next ≡ b.book.next)
        × (b'.world ≡ b.world)
        × (length b'.trades ≡ length b.trades + 1)
  unfolding conclude remove_order
  finish_resubmitted ad a exec fee b same = rw (process_same ad a (report done exec fee) b same) (
    refl,
    ground (arith, ==_iff (b.book.heap a).uuid (b.book.heap a).uuid),
    refl,
    refl,
    omega (arith, length-append {0} b.trades),
  )

  -- A rsitrade purchase with a target, of which `o.filled_volume` is filled, at a market with
  -- sessions: it expires with nothing more executed; it is submitted again, under a new uuid; and the
  -- new order is done with an executed volume of no more than was filled before. Then the purchase is
  -- tracked no more, its trade is booked, and in these three steps no order has been created for the
  -- book or sent to the exchange, so that there is no take-profit order for what the new order bought.
  pub resubmitted_fill_unsold :
      (ad : Adapter R W) (a : ℕ) (uuid : String) (exec again fee : R) (b : Bot R W)
      → IsIndexed b.book
      → b.book.by_uuid (b.book.heap a).uuid ≡ some a
      → wants_linked_sell (b.book.heap a) ≡ true
      → (ad.get_exchange (b.book.heap a).exchange).supports_reserved_orders ≡ true
      → f.lt (b.book.heap a).filled_volume exec ≡ false
      → f.lt (b.book.heap a).filled_volume again ≡ false
      → let b1 = (process_order_fill ad a (report cancel exec fee) b).1 in
        let b2 = (accept_submission ad (b1.book.heap a) uuid b1).1 in
        let (res, b3) = process_order_fill ad a (report done again fee) b2 in
        ((b1.book.heap a).status ≡ pending_reorder)
        × (b2.book.by_uuid uuid ≡ some a)
        × (res ≡ val tt)
        × (b3.book.by_uuid uuid ≡ none)
        × (b3.book.next ≡ b.book.next)
        × (b3.world ≡ b.world)
        × (length b3.trades ≡ length b.trades + 1)
  unfolding renamed
  resubmitted_fill_unsold ad a uuid exec again fee b w e wanted sessions same no_more =
      let reordered =
        rsi_reordered (ad.get_exchange (b.book.heap a).exchange) (b.book.heap a) sessions wanted in
      let b1 = expired ad a b in
      let b2 = (accept_submission ad (b1.book.heap a) uuid b1).1 in
      let (res2, kept, tracked, next2, world2, trades2) =
        accept_submission_keeps ad a uuid b1 (rw (==_self a) e) in
      let (res, gone, next, world, trades) =
        finish_resubmitted ad a again fee b2 (unfold renamed in rw (kept, ==_self a) no_more) in
      rw (process_order_fill_reorders ad a exec fee b w e same reordered) (
        rw (==_self a) refl,
        tracked,
        res,
        rw (ap (λ o. o.uuid) kept) at gone,
        next ∙ next2,
        world ∙ world2,
        trades ∙ ap (λ x. length x + 1) trades2,
      )

-- ===== src/Sync/Waiting.antt =====
-- Orders that wait for a session.
use supabot.Base.{==_self, false, nat_eq, refl, some, string_eq, true, ℕ, ◌≡◌}
use supabot.Base.Float.{Float, fmax}
use supabot.Orders.Manager.{update_next_check_at}
use supabot.Orders.Index.{IsIndexed}
use supabot.Sync.Defs.{Adapter, Bot, val}
use supabot.Sync.Submit.{submit_reserved_or_reorder, waits_for_session}
use supabot.Sync.Filled.{update_order_lem}

module _ {R W : Type 0} ⦃f : Float R⦄ where
  -- While trading is halted an order that waits for its session is not sent: it stays tracked with
  -- its price and volumes, the next check is that of the market, and the world is untouched.
  pub submit_halted :
      (ad : Adapter R W) (a : ℕ) (b : Bot R W)
      → IsIndexed b.book
      → b.book.by_uuid (b.book.heap a).uuid ≡ some a
      → let o = b.book.heap a in
        let ex = ad.get_exchange o.exchange in
        ex.supports_reserved_orders ≡ true
        → waits_for_session o.status ≡ true
        → f.le (fmax (f.sub o.volume o.filled_volume) (f.of_ℕ 0)) (f.of_ℕ 0) ≡ false
        → ad.is_trading_halted b.world ≡ true
        → let (res, b') = submit_reserved_or_reorder ad a b in
          (res ≡ val true)
          × (b'.world ≡ b.world)
          × (b'.book.by_uuid o.uuid ≡ some a)
          × (b'.book.heap a ≡ record o { next_check_at = ex.next_check_timestamp o.ticker b.world })
  unfolding submit_reserved_or_reorder update_next_check_at
  submit_halted ad a b w e sup waits open_rest halted =
      let o = b.book.heap a in
      let t = (ad.get_exchange o.exchange).next_check_timestamp o.ticker b.world in
      rw
        (
          sup,
          waits,
          open_rest,
          halted,
          update_order_lem o.uuid a (λ p. record p { next_check_at = t }) b.book w e,
        )
        (refl, refl, e, rw (==_self a) refl)

-- ===== src/Sync/Filled.antt =====
-- What a report of the exchange does to an order that is no rsitrade purchase with a target.
use supabot.Base.{
  ==_iff, ==_self, Bool-cases, String, [], arith, false, if◌then◌else◌, inl, inr, nat_eq, none,
  refl, some, string_eq, true, ℕ, ◌++◌, ◌∷◌, ◌≡◌,
}
use supabot.Base.Float.{Float, is_zero}
use supabot.Orders.Defs.{Manager, Order, Status, at, db_upsert, done}
use supabot.Orders.Manager.{remove_order, update_order, update_order_fill}
use supabot.Orders.Index.{IsIndexed, get_order_by_uuid_lem}
use supabot.Sync.Defs.{Adapter, Bot, Report, chain, filled_note, notify, status_eq, val, when}
use supabot.Sync.Fill.{conclude, process_order_fill, trade_of, wants_linked_sell}

module _ {R : Type 0} where
  -- With the index in order, a change by uuid is a change at the address.
  pub update_order_lem :
      (u : String) (a : ℕ) (change : Order R → Order R) (m : Manager R)
      → IsIndexed m
      → m.by_uuid u ≡ some a
      → update_order u change m ≡ (
        true,
        record m { heap = at m.heap a (change (m.heap a)) },
        db_upsert (change (m.heap a)) ∷ [],
      )
  unfolding update_order
  update_order_lem u a change m w e = rw (update_order, get_order_by_uuid_lem u m w, e) refl

module _ {R W : Type 0} where
  -- The bot after `update_order_fill` of the order at the address.
  abbrev pub after_fill : ℕ → Report R → Bot R W → Bot R W
  after_fill a r b =
      let o = record (b.book.heap a) { filled_volume = r.executed_volume; status = r.state } in
      record b {
        book = record (b.book) { heap = at b.book.heap a o };
        requests = b.requests ++ db_upsert o ∷ [];
      }

module _ {R : Type 0} where
  -- The report of a state, with what was executed and the fee.
  abbrev pub report : Status → R → R → Report R
  report st exec fee = record { state = st; executed_volume = exec; fee_amount = fee }

module _ {R W : Type 0} ⦃f : Float R⦄ where
  finish_done :
      (ad : Adapter R W) (a : ℕ) (exec fee : R) (b : Bot R W)
      → let o = b.book.heap a in
        let volume = if is_zero exec then o.filled_volume else exec in
        let (res, b') = conclude ad a (report done exec fee) false b in
        (res ≡ val tt)
        × (b'.book.by_uuid o.uuid ≡ none)
        × (b'.world ≡ b.world)
        × (b'.trades ≡ b.trades ++ trade_of o volume fee ∷ [])
  unfolding conclude remove_order
  finish_done ad a exec fee b =
      (refl, ground (arith, ==_iff (b.book.heap a).uuid (b.book.heap a).uuid), refl, refl)

  -- The first branch: more is filled than before.
  pub process_more :
      (ad : Adapter R W) (a : ℕ) (r : Report R) (b : Bot R W)
      → IsIndexed b.book
      → b.book.by_uuid (b.book.heap a).uuid ≡ some a
      → wants_linked_sell (b.book.heap a) ≡ false
      → f.lt (b.book.heap a).filled_volume r.executed_volume ≡ true
      → process_order_fill ad a r b
        ≡ chain
            (when
              (status_eq r.state done)
              (notify (b.book.heap a).user_id filled_note)
              (after_fill a r b))
            (λ _. conclude ad a r false)
  unfolding process_order_fill update_order_fill
  process_more ad a r b w e wl l =
      rw
        (
          l,
          wl,
          update_order_lem (b.book.heap a).uuid a
              (λ o. record o { filled_volume = r.executed_volume; status = r.state }) b.book w e,
        )
        refl

  pub process_same :
      (ad : Adapter R W) (a : ℕ) (r : Report R) (b : Bot R W)
      → f.lt (b.book.heap a).filled_volume r.executed_volume ≡ false
      → process_order_fill ad a r b ≡ conclude ad a r false b
  unfolding process_order_fill
  process_same ad a r b l = rw l refl

  -- A report that an order is done, when the order is no rsitrade purchase with a target: the bot
  -- tracks the order no more, and books exactly one trade, of the volume that was executed, at the
  -- order's price and with the fee of the report. Nothing is sent to the exchange. (The report
  -- gives an executed volume that is not zero.)
  pub process_order_fill_done :
      (ad : Adapter R W) (a : ℕ) (exec fee : R) (b : Bot R W)
      → IsIndexed b.book
      → b.book.by_uuid (b.book.heap a).uuid ≡ some a
      → wants_linked_sell (b.book.heap a) ≡ false
      → is_zero exec ≡ false
      → let o = b.book.heap a in
        let (res, b') = process_order_fill ad a (report done exec fee) b in
        (res ≡ val tt)
        × (b'.book.by_uuid o.uuid ≡ none)
        × (b'.world ≡ b.world)
        × (b'.trades ≡ b.trades ++ trade_of o exec fee ∷ [])
  process_order_fill_done ad a exec fee b w e wl nz =
      let r = report done exec fee in
      elim (Bool-cases (f.lt (b.book.heap a).filled_volume exec)) [
        | inr n ↦
            let (res, gone, world, trades) = finish_done ad a exec fee b in
            rw (process_same ad a r b n) (res, gone, world, rw nz at trades)
        | inl l ↦
            let b2 = (notify (b.book.heap a).user_id filled_note (after_fill a r b)).1 in
            let (res, gone, world, trades) = finish_done ad a exec fee b2 in
            rw (process_more ad a r b w e wl l)
              (res, rw (==_self a) at gone, world, rw (==_self a, nz) at trades)
      ]

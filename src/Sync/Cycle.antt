-- ===== src/Sync/Cycle.antt =====
-- One run over all tracked orders, `sync_orders`, and the recovery at the start, `startup_recovery`.
-- The queries that `asyncio.gather` runs at once are made one after the other, in their order.
use supabot.Base.{
  Bool, List, Option, String, [], any, false, filter, if◌then◌else◌, ltb, nat_eq, none, not, some,
  string_eq, ℕ, ◌&&◌, ◌+◌, ◌==◌, ◌∷◌,
}
use supabot.Base.Float.{Float}
use supabot.Base.Text.{is_digit}
use supabot.Orders.Defs.{Manager, Order, cancel_requested}
use supabot.Orders.Manager.{all_orders, has_order}
use supabot.Sync.Defs.{
  Adapter, M, Report, call, except, gets, handled, is_bid, is_linked, notify, observe, on_book,
  order, pure, remove, status_eq, status_unknown_dropped, status_unknown_reorder, val, ◌>>=◌, ◌>>◌,
}
use supabot.Sync.Linked.{create_linked_sell_order}
use supabot.Sync.Cancel.{cleanup_stale_caches}
use supabot.Sync.Submit.{count_unknown, handle_market_closed, submit_reserved_or_reorder}
use supabot.Sync.Stop.{apply_stop_loss}
use supabot.Sync.Fill.{handle_cancel_requested, is_reordered, postpone, process_order_fill}

abbrev pub status_check_fail_limit : ℕ
status_check_fail_limit = 5

module _ {R W : Type 0} where
  abbrev pub has : String → M R W Bool
  unfolding has_order
  has uuid = on_book (λ m. let (r, m') = has_order uuid m in (r, m', []))

  abbrev pub open_calendar : Adapter R W → Order R → M R W (Unit {0})
  open_calendar ad o b = (
    val tt,
    if o.exchange == "toss" && is_digit o.ticker
        then record b { world = ad.ensure_toss_kr_calendar o.user_id b.world }
        else b,
  )

  -- The addresses for which the action says `true`.
  abbrev pub select : (ℕ → M R W Bool) → List ℕ → M R W (List ℕ)
  select test [] = pure []
  select test (a ∷ rest) =
      test a >>= λ chosen. select test rest >>= λ more. pure (if chosen then a ∷ more else more)

  abbrev pub for_each : {A : Type 0} → (A → M R W (Unit {0})) → List A → M R W (Unit {0})
  for_each body [] = pure tt
  for_each body (a ∷ rest) = body a >>= λ _. for_each body rest

  abbrev pub for_all : {A B : Type 0} → (A → M R W B) → List A → M R W (List B)
  for_all body [] = pure []
  for_all body (a ∷ rest) = body a >>= λ x. for_all body rest >>= λ xs. pure (x ∷ xs)

  -- No answer for an order: at a market with sessions five times in a row end its tracking, or put
  -- it off for a new placement.
  unfoldable pub status_unknown : Adapter R W → ℕ → M R W (Unit {0})
  status_unknown ad a = do
    o ← order a
    b ← gets (λ b. b)
    let ex = ad.get_exchange o.exchange
    let fails = b.status_failures o.uuid + 1
    let give_up =
        (if is_reordered ex o
          then (do
            postpone o.uuid (ex.next_check_timestamp o.ticker b.world)
            notify o.user_id status_unknown_reorder)
          else (do remove o.uuid; notify o.user_id status_unknown_dropped))
    if not ex.supports_reserved_orders
        then pure tt
        else (if ltb fails status_check_fail_limit
            then count_unknown o.uuid fails
            else (do count_unknown o.uuid 0; give_up))

  -- `_fetch_status`
  unfoldable pub fetch_status : Adapter R W → ℕ → M R W (ℕ × Option (Report R))
  fetch_status ad a = do
    o ← order a
    known ← has o.uuid
    if known
        then (do
          report ← call (ad.get_order_status o.user_id o.exchange o.uuid o.ticker)
          pure (a, report))
        else pure (a, none)

module _ {R : Type 0} where
  abbrev pub is_tracked_by : Manager R → String → Bool
  is_tracked_by m u = any (λ o. o.uuid == u) (all_orders m)

module _ {R : Type 0} ⦃f : Float R⦄ where
  -- A purchase of rsitrade with a target, as the recovery looks for it.
  abbrev pub is_recoverable : Order R → Bool
  is_recoverable o = is_bid o.side && o.strategy == "rsitrade" && is_linked o.linked_to

module _ {R W : Type 0} ⦃f : Float R⦄ where
  -- The first pass: what needs no answer of the exchange is done, and `true` asks for one.
  unfoldable pub visit : Adapter R W → R → ℕ → M R W Bool
  unfolding handle_cancel_requested handle_market_closed submit_reserved_or_reorder
  visit ad now a = do
    o ← order a
    known ← has o.uuid
    let proceed = (do
      open_calendar ad o
      closed ← handle_market_closed ad a
      if closed
          then pure false
          else (do handled ← submit_reserved_or_reorder ad a; pure (not handled)))
    if not known
        then pure false
        else (if f.lt now o.next_check_at
            then pure false
            else (if status_eq o.status cancel_requested
                then (do handle_cancel_requested ad a; pure false)
                else proceed))

  abbrev pub answered : Adapter R W → ℕ → Option (Report R) → M R W (Unit {0})
  unfolding status_unknown apply_stop_loss process_order_fill
  answered ad a none = status_unknown ad a
  answered ad a (some r) = do
    o ← order a
    count_unknown o.uuid 0
    stopped ← apply_stop_loss ad a r.state
    if stopped then pure tt else process_order_fill ad a r

  -- The second pass, for an order that is still tracked.
  unfoldable pub digest : Adapter R W → ℕ × Option (Report R) → M R W (Unit {0})
  unfolding status_unknown apply_stop_loss process_order_fill
  digest ad (a, report) = do
    o ← order a
    known ← has o.uuid
    if known then answered ad a report else pure tt

  abbrev pub fresh_caches : M R W (Unit {0})
  fresh_caches b = (val tt, record b { quotes = λ _ _ _. none; prices = λ _ _. none })

  unfoldable pub sync_orders : Adapter R W → M R W (Unit {0})
  unfolding cleanup_stale_caches visit fetch_status digest
  sync_orders ad = do
    start ← gets (λ b. b)
    cleanup_stale_caches (is_tracked_by start.book)
    fresh_caches
    now ← observe ad.now
    to_query ← select (visit ad now) start.book.orders
    reports ← for_all (fetch_status ad) to_query
    for_each (digest ad) reports

  unfoldable pub recover : Adapter R W → ℕ → M R W (Unit {0})
  unfolding create_linked_sell_order
  recover ad a = do
    o ← order a
    known ← has o.uuid
    report ←
        (if known
          then except (call (ad.get_order_status o.user_id o.exchange o.uuid o.ticker)) (pure none)
          else pure none)
    elim report [
      | none ↦ pure tt
      | some r ↦
          if f.le r.executed_volume o.filled_volume
          then pure tt
          else (do create_linked_sell_order ad a r.executed_volume r.state; pure tt)
    ]

  unfoldable pub startup_recovery : Adapter R W → M R W (Unit {0})
  unfolding recover
  startup_recovery ad = do
    start ← gets (λ b. b)
    for_each (recover ad) (filter (λ a. is_recoverable (start.book.heap a)) start.book.orders)

-- ===== src/Sync/Submit.antt =====
-- Orders that wait for a session: `_handle_market_closed`, `_find_duplicate_open_order` and
-- `_submit_reserved_or_reorder`.
use supabot.Base.{
  Bool, List, Option, String, [], false, if◌then◌else◌, leb, nat_eq, none, not, some, string_eq,
  true, ℕ, ◌&&◌, ◌+◌, ◌==◌, ◌||◌, ◌∷◌,
}
use supabot.Base.Float.{Float, fabs, fmax, ratio}
use supabot.Orders.Defs.{Order, Status, at, market_closed, pending_reorder, reserved}
use supabot.Orders.Manager.{replace_order_uuid, update_next_check_at, update_order_status}
use supabot.Sync.Defs.{
  Adapter, M, Market, Open, Quote, call, except, gave_up, gets, is_bid, limit_postponed, notify,
  observe, on_book, order, pure, remove, status_eq, submit_failed, submitted, val, when, ◌>>=◌,
  ◌>>◌,
}

abbrev pub reorder_fail_limit : ℕ
reorder_fail_limit = 5

abbrev pub waits_for_session : Status → Bool
waits_for_session st = status_eq st pending_reorder || status_eq st reserved

module _ {R W : Type 0} where
  abbrev pub restate : String → Status → M R W (Unit {0})
  unfolding update_order_status
  restate uuid st =
      on_book (λ m. let (_, m', effects) = update_order_status uuid st m in (tt, m', effects))

  abbrev pub recheck : String → R → M R W (Unit {0})
  unfolding update_next_check_at
  recheck uuid t =
      on_book (λ m. let (_, m', effects) = update_next_check_at uuid t m in (tt, m', effects))

  unfoldable pub handle_market_closed : Adapter R W → ℕ → M R W Bool
  handle_market_closed ad a = do
    o ← order a
    b ← gets (λ b. b)
    let ex = ad.get_exchange o.exchange
    let st = if waits_for_session o.status then o.status else market_closed
    if ex.is_market_open o.ticker b.world then pure false else (do
      restate o.uuid st
      recheck o.uuid (ex.next_check_timestamp o.ticker b.world)
      pure true)

  abbrev pub warn : String → Bool → M R W (Unit {0})
  warn uuid v b = (val tt, record b { limit_warned = at b.limit_warned uuid v })

  abbrev pub count_failures : String → ℕ → M R W (Unit {0})
  count_failures uuid n b = (val tt, record b { reorder_failures = at b.reorder_failures uuid n })

  -- `_STATUS_CHECK_FAIL_LIMIT` has a counter of its own.
  abbrev pub count_unknown : String → ℕ → M R W (Unit {0})
  count_unknown uuid n b = (val tt, record b { status_failures = at b.status_failures uuid n })

module _ {R : Type 0} ⦃f : Float R⦄ where
  -- The tolerances are 1 won, and a millionth of a unit.
  abbrev pub is_same_spec : Order R → R → Open R → Bool
  is_same_spec o vol p =
      (is_bid p.side && is_bid o.side || not (is_bid p.side) && not (is_bid o.side))
      && not (f.lt (f.of_ℕ 1) (fabs (f.sub p.price o.price)))
      && not (f.lt (ratio 1 1_000_000) (fabs (f.sub p.volume vol)))

  -- The uuid of the first open order of the same side, price and volume.
  abbrev pub first_same : Order R → R → List (Open R) → Option String
  first_same o vol [] = none
  first_same o vol (p ∷ ps) =
      let rest = first_same o vol ps in
      elim p.uuid [ none ↦ rest | some u ↦ if is_same_spec o vol p then some u else rest ]

  abbrev pub is_above : R → Option R → Bool
  is_above price none = false
  is_above price (some limit) = f.lt limit price

  abbrev pub is_below : R → Option R → Bool
  is_below price none = false
  is_below price (some limit) = f.lt price limit

  abbrev pub is_limit_exceeded : R → Option (Quote R) → Bool
  is_limit_exceeded price none = false
  is_limit_exceeded price (some q) =
      is_above price q.upper_limit_price || is_below price q.lower_limit_price

module _ {R W : Type 0} ⦃f : Float R⦄ where
  unfoldable pub find_duplicate_open_order : Adapter R W → Order R → R → M R W (Option String)
  find_duplicate_open_order ad o vol =
      except
        (do
          open_orders ← call (ad.get_open_orders o.user_id o.exchange o.ticker)
          pure (first_same o vol open_orders))
        (pure none)

  abbrev pub is_kr_stock : Market R W → Order R → Bool
  is_kr_stock ex o = o.exchange == "kis" || o.exchange == "toss" && not (ex.is_us_stock o.ticker)

  -- The price of the ticker, once in a run.
  abbrev pub cached_quote : Adapter R W → Order R → M R W (Option (Quote R))
  cached_quote ad o b = elim (b.quotes o.exchange o.ticker o.user_id) [
    | some q ↦ (val (some q), b)
    | none ↦ (do q ← call (ad.get_ticker o.user_id o.exchange o.ticker); store_quote q) b
  ]
    where
      store_quote : Option (Quote R) → M R W (Option (Quote R))
      store_quote none b' = (val none, b')
      store_quote (some q) b' = (
        val (some q),
        record b' {
          quotes = λ ex ticker user.
              if ex == o.exchange && ticker == o.ticker && user == o.user_id
              then some q
              else b'.quotes ex ticker user;
        },
      )

  -- The daily price limits: `true` when the order has been put off. An exception of the query lets
  -- the order through.
  unfoldable pub postpone_beyond_limits : Adapter R W → Order R → M R W Bool
  postpone_beyond_limits ad o =
      let ex = ad.get_exchange o.exchange in
      except
        (do
          q ← cached_quote ad o
          b ← gets (λ b. b)
          if is_limit_exceeded o.price q
              then (do
                recheck o.uuid (ex.next_check_timestamp o.ticker b.world)
                when (not (b.limit_warned o.uuid))
                    (do notify o.user_id limit_postponed; warn o.uuid true)
                pure true)
              else pure false)
        (pure false)

  -- The new uuid replaces the old one in the book.
  unfoldable pub accept_submission : Adapter R W → Order R → String → M R W (Unit {0})
  unfolding replace_order_uuid
  accept_submission ad o uuid = do
    count_failures o.uuid 0
    warn o.uuid false
    now ← observe ad.now
    on_book (replace_order_uuid o.uuid uuid now)
    notify o.user_id submitted

  -- After the fifth failure in a row the order is given up.
  unfoldable pub count_failed_submission : Adapter R W → Order R → M R W (Unit {0})
  count_failed_submission ad o = do
    b ← gets (λ b. b)
    let ex = ad.get_exchange o.exchange
    let fails = b.reorder_failures o.uuid + 1
    let retry =
        if ex.is_market_open o.ticker b.world
        then f.add (ad.now b.world) (f.of_ℕ 60)
        else ex.next_check_timestamp o.ticker b.world
    if leb reorder_fail_limit fails
        then (do
          count_failures o.uuid 0
          warn o.uuid false
          remove o.uuid
          notify o.user_id gave_up)
        else (do count_failures o.uuid fails; recheck o.uuid retry; notify o.user_id submit_failed)

  unfoldable pub place_waiting : Adapter R W → Order R → R → M R W (Unit {0})
  unfolding find_duplicate_open_order accept_submission count_failed_submission
  place_waiting ad o vol = do
    dup ← find_duplicate_open_order ad o vol
    placed ← elim dup [
      | some u ↦ pure (some u)
      | none ↦ call (ad.create_order o.user_id o.exchange o.ticker o.side o.price vol)
    ]
    elim placed [ some u ↦ accept_submission ad o u | none ↦ count_failed_submission ad o ]

  unfoldable pub submit_reserved_or_reorder : Adapter R W → ℕ → M R W Bool
  unfolding postpone_beyond_limits place_waiting
  submit_reserved_or_reorder ad a = do
    o ← order a
    b ← gets (λ b. b)
    let ex = ad.get_exchange o.exchange
    let remaining = fmax (f.sub o.volume o.filled_volume) (f.of_ℕ 0)
    let vol = if ex.requires_integer_volume then f.trunc remaining else remaining
    let held = (do recheck o.uuid (ex.next_check_timestamp o.ticker b.world); pure true)
    let place = (do
      late ← if is_kr_stock ex o then postpone_beyond_limits ad o else pure false
      if late then pure true else (do place_waiting ad o vol; pure true))
    if not (ex.supports_reserved_orders && waits_for_session o.status)
        then pure false
        else (if f.le remaining (f.of_ℕ 0)
            then (do remove o.uuid; pure true)
            else (if ad.is_trading_halted b.world
                then held
                else (if ex.is_order_placement_allowed o.ticker b.world then place else held)))

-- ===== src/Sync/Examples.antt =====
-- The theorems on the synchronisation with a concrete exchange: the world is a clock in seconds, the
-- market has sessions, and each query is answered in the same way.
use supabot.Base.{
  [], false, length, nat_eq, none, refl, some, string_eq, true, ℕ, ◌+◌, ◌∷◌, ◌≡◌, ◌⊎◌,
}
use supabot.Base.Int.{pos, ℤ, ◌-ℤ◌}
use supabot.Base.Float.{int_float}
use supabot.Orders.Defs.{Manager, NewOrder, cancel, done, level, pending_reorder, reserved, wait}
use supabot.Orders.Manager.{
  add_order, get_order_by_uuid, new_order, remove_order, update_order, update_order_fill,
}
use supabot.Orders.Index.{add_order-IsIndexed, update_order-IsIndexed}
use supabot.Orders.Examples.{bought, empty-IsIndexed, empty_book, one-IsIndexed, one_book}
use supabot.Sync.Defs.{Adapter, Bot, Market, cancelled_outside, got, is_strategy_order, threw, val}
use supabot.Sync.Cancel.{cancel_and_remove_order}
use supabot.Sync.Submit.{accept_submission}
use supabot.Sync.Stop.{sell_at_stop}
use supabot.Sync.Fill.{process_order_fill, trade_of}
use supabot.Sync.Cancelled.{cancel_and_remove_order_outcome}
use supabot.Sync.Filled.{process_order_fill_done, report}
use supabot.Sync.Ended.{process_order_fill_cancel, resubmitted_fill_unsold}
use supabot.Sync.Stopped.{IsStopped, sell_at_stop_outcome}

abbrev pub kis : Market ℤ ℕ
kis = record {
  supports_reserved_orders = true;
  requires_integer_volume = true;
  is_us_stock = λ ticker. false;
  round_volume = λ volume. volume;
  adjust_price_to_tick = λ price ticker. price;
  is_market_open = λ ticker now. true;
  is_order_placement_allowed = λ ticker now. true;
  next_check_timestamp = λ ticker now. pos (now + 3600);
}

-- The exchange refuses a cancellation, has no open orders, and takes every new order as "u9".
abbrev pub exchange : Adapter ℤ ℕ
exchange = record {
  get_exchange = λ name. kis;
  create_order = λ user name ticker side price volume now. (got (some "u9"), now + 1);
  cancel_order = λ user name uuid ticker now. (got false, now + 1);
  get_order_status = λ user name uuid ticker now. (threw, now + 1);
  get_open_orders = λ user name ticker now. (got [], now + 1);
  get_balances = λ user name now. (got [], now + 1);
  get_ticker = λ user name ticker now. (got none, now + 1);
  ensure_toss_kr_calendar = λ user now. now;
  get_price_by_rsi = λ name ticker target side user now. (got (some (pos 80_000)), now + 1);
  get_price = λ name ticker now. none;
  stop_loss_pct = λ user. pos 0;
  is_trading_halted = λ now. true;
  now = λ now. pos now;
}

abbrev pub bot_of : Manager ℤ → Bot ℤ ℕ
bot_of m = record {
  book = m;
  world = 100;
  requests = [];
  trades = [];
  notes = [];
  limit_warned = λ uuid. false;
  reorder_failures = λ uuid. 0;
  status_failures = λ uuid. 0;
  quotes = λ name ticker user. none;
  prices = λ name ticker. none;
}

-- One purchase of 5 shares.
abbrev pub bot : Bot ℤ ℕ
bot = bot_of one_book

-- The same purchase, which waits for the next session.
abbrev waiting_book : Manager ℤ
waiting_book = (add_order (record bought { status = reserved }) (pos 9) empty_book).0

-- A purchase of rsitrade with a target.
abbrev rsi_book : Manager ℤ
rsi_book =
    (add_order (record bought { strategy = "rsitrade"; linked_to = some (level (pos 70)) }) (pos 9)
      empty_book).0

cancel_and_remove_order_outcome_example :
    let (r, b') = cancel_and_remove_order exchange "ann" 0 bot in
    ((r ≡ val true)
      × (b'.book.by_uuid (bot.book.heap 0).uuid ≡ none)
      × (b'.trades ≡ [])
      × (b'.notes ≡ []))
    ⊎ ((r ≡ val false)
        × (b'.book ≡ one_book)
        × (b'.requests ≡ [])
        × (b'.trades ≡ [])
        × (b'.notes ≡ []))
cancel_and_remove_order_outcome_example = cancel_and_remove_order_outcome exchange "ann" 0 bot

process_order_fill_done_example :
    let o = bot.book.heap 0 in
    let (res, b') = process_order_fill exchange 0 (report done (pos 5) (pos 1)) bot in
    (res ≡ val tt)
    × (b'.book.by_uuid o.uuid ≡ none)
    × (b'.world ≡ 100)
    × (b'.trades ≡ trade_of o (pos 5) (pos 1) ∷ [])
process_order_fill_done_example =
    process_order_fill_done exchange 0 (pos 5) (pos 1) bot one-IsIndexed
      (unfold add_order new_order remove_order in refl)
      (unfold add_order new_order remove_order in refl) refl

-- The purchase as a manual order.
abbrev by_hand : NewOrder ℤ
by_hand = record bought { strategy = "manual" }

abbrev manual_book : Manager ℤ
manual_book = (add_order by_hand (pos 9) empty_book).0

process_order_fill_cancel_example :
    let b = bot_of manual_book in
    let o = b.book.heap 0 in
    let (res, b') = process_order_fill exchange 0 (report cancel (pos 2) (pos 1)) b in
    (res ≡ val tt)
    × (b'.book.by_uuid o.uuid ≡ none)
    × (b'.world ≡ 100)
    × (b'.trades ≡ [])
    × (b'.notes ≡ (o.user_id, cancelled_outside) ∷ [])
process_order_fill_cancel_example =
    process_order_fill_cancel exchange 0 (pos 2) (pos 1) (bot_of manual_book)
      (add_order-IsIndexed by_hand (pos 9) empty_book empty-IsIndexed)
      (unfold add_order new_order remove_order in refl)
      (unfold add_order new_order remove_order in refl)
      (unfold add_order new_order remove_order is_strategy_order in refl)

-- 3 of 5 shares were filled before the order expired, and 2 are bought the second time.
abbrev refilled : Bot ℤ ℕ
refilled = bot_of (update_order_fill "u1" (pos 3) wait rsi_book).1

resubmitted_fill_unsold_example :
    let b1 = (process_order_fill exchange 0 (report cancel (pos 3) (pos 1)) refilled).1 in
    let b2 = (accept_submission exchange (b1.book.heap 0) "u9" b1).1 in
    let (res, b3) = process_order_fill exchange 0 (report done (pos 2) (pos 1)) b2 in
    ((b1.book.heap 0).status ≡ pending_reorder)
    × (b2.book.by_uuid "u9" ≡ some 0)
    × (res ≡ val tt)
    × (b3.book.by_uuid "u9" ≡ none)
    × (b3.book.next ≡ refilled.book.next)
    × (b3.world ≡ 100)
    × (length b3.trades ≡ 1)
resubmitted_fill_unsold_example =
    resubmitted_fill_unsold exchange 0 "u9" (pos 3) (pos 2) (pos 1) refilled
      (unfold update_order_fill in
        update_order-IsIndexed "u1" (λ o. record o { filled_volume = pos 3; status = wait })
          rsi_book
          (add_order-IsIndexed
            (record bought { strategy = "rsitrade"; linked_to = some (level (pos 70)) }) (pos 9)
            empty_book empty-IsIndexed)
          (λ o. refl))
      (unfold add_order new_order remove_order update_order_fill update_order get_order_by_uuid in
        refl)
      (unfold add_order new_order remove_order update_order_fill update_order get_order_by_uuid in
        refl)
      refl
      (unfold add_order new_order remove_order update_order_fill update_order get_order_by_uuid in
        refl)
      (unfold add_order new_order remove_order update_order_fill update_order get_order_by_uuid in
        refl)

sell_at_stop_outcome_example :
    IsStopped exchange
      (bot.book.heap 0)
      (pos 0)
      (pos 5 -ℤ pos 0)
      bot
      (sell_at_stop exchange (bot.book.heap 0) (pos 60_000) bot)
unfolding add_order new_order remove_order supabot.Base.Int.◌*ℤ◌
sell_at_stop_outcome_example = sell_at_stop_outcome exchange (bot.book.heap 0) (pos 60_000) bot

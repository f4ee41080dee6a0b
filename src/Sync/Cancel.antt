-- ===== src/Sync/Cancel.antt =====
-- Cancelling: `cancel_and_remove_order`, `reconcile_external_sells_fifo`, `_cleanup_stale_caches`.
use supabot.Base.{
  Bool, List, Option, String, [], false, filter, if◌then◌else◌, ltb, nat_eq, none, not, some,
  string_eq, suc, true, ℕ, ◌&&◌, ◌==◌, ◌||◌, ◌∷◌,
}
use supabot.Base.Float.{Float, fmax}
use supabot.Orders.Defs.{Order, cancel, done, partial, pending_reorder, reserved, wait}
use supabot.Sync.Defs.{
  Adapter, M, Report, call, except, external_sells_cleared, gets, is_bid, notify, order, pure,
  remove, status_eq, val, when, ◌>>=◌, ◌>>◌,
}

module _ {R : Type 0} where
  abbrev pub is_over : Option (Report R) → Bool
  is_over none = false
  is_over (some r) = status_eq r.state done || status_eq r.state cancel

  -- The sells of one ticker that are open.
  abbrev pub is_open_ask : String → Order R → Bool
  is_open_ask ticker o =
      o.ticker == ticker
      && not (is_bid o.side)
      && (status_eq o.status wait
          || status_eq o.status partial
          || status_eq o.status reserved
          || status_eq o.status pending_reorder)

module _ {R : Type 0} ⦃f : Float R⦄ where
  abbrev pub rem_volume : Order R → R
  rem_volume o = f.sub o.volume o.filled_volume

  abbrev pub sum_rem : (ℕ → Order R) → R → List ℕ → R
  sum_rem heap acc [] = acc
  sum_rem heap acc (a ∷ as') = sum_rem heap (f.add acc (rem_volume (heap a))) as'

  -- `sorted(..., key=created_at)` is stable.
  abbrev pub place_by_age : (ℕ → Order R) → ℕ → List ℕ → List ℕ
  place_by_age heap a [] = a ∷ []
  place_by_age heap a (b ∷ bs) =
      if f.lt (heap b).created_at (heap a).created_at
      then b ∷ place_by_age heap a bs
      else a ∷ b ∷ bs

  abbrev pub sorted_by_age : (ℕ → Order R) → List ℕ → List ℕ
  sorted_by_age heap [] = []
  sorted_by_age heap (a ∷ as') = place_by_age heap a (sorted_by_age heap as')

module _ {R W : Type 0} where
  -- The first `try`: `true` when the exchange took the cancellation.
  unfoldable pub try_cancel : Adapter R W → String → Order R → M R W Bool
  try_cancel ad user o =
      except
        (do
          ok ← call (ad.cancel_order user o.exchange o.uuid o.ticker)
          if ok then (do remove o.uuid; pure true) else pure false)
        (pure false)

  -- The second `try`: `true` when the order is over anyway.
  unfoldable pub try_status : Adapter R W → String → Order R → M R W Bool
  try_status ad user o =
      except
        (do
          report ← call (ad.get_order_status user o.exchange o.uuid o.ticker)
          if is_over report then (do remove o.uuid; pure true) else pure false)
        (pure false)

  unfoldable pub cancel_and_remove_order : Adapter R W → String → ℕ → M R W Bool
  unfolding try_cancel try_status
  cancel_and_remove_order ad user a = do
    o ← order a
    taken ← try_cancel ad user o
    if taken then pure true else try_status ad user o

module _ {R W : Type 0} ⦃f : Float R⦄ where
  -- The oldest sells keep what the balance covers; the result is the number that was cancelled.
  unfoldable pub clear_uncovered : Adapter R W → String → R → List ℕ → M R W ℕ
  unfolding cancel_and_remove_order
  clear_uncovered ad user left [] = pure 0
  clear_uncovered ad user left (a ∷ as') = do
    o ← order a
    let kept = clear_uncovered ad user (f.sub left (rem_volume o)) as'
    let rest = clear_uncovered ad user left as'
    let cancelled = (do cancel_and_remove_order ad user a; n ← rest; pure (suc n))
    if f.le (rem_volume o) left then kept else cancelled

  unfoldable pub reconcile_external_sells_fifo :
      Adapter R W → String → String → String → R → M R W (Unit {0})
  unfolding clear_uncovered
  reconcile_external_sells_fifo ad user ex ticker balance = do
    b ← gets (λ b. b)
    let heap = b.book.heap
    let asks =
        filter
          (λ a. (heap a).user_id == user && (heap a).exchange == ex && is_open_ask ticker (heap a))
          b.book.orders
    if f.le (sum_rem heap (f.of_ℕ 0) asks) balance then pure tt else (do
      n ← clear_uncovered ad user (fmax (f.of_ℕ 0) balance) (sorted_by_age heap asks)
      when (ltb 0 n) (notify user external_sells_cleared))

-- The caches keep what is tracked.
unfoldable pub cleanup_stale_caches : {R W : Type 0} → (String → Bool) → M R W (Unit {0})
cleanup_stale_caches active b = (
  val tt,
  record b {
    limit_warned = λ u. active u && b.limit_warned u;
    reorder_failures = λ u. if active u then b.reorder_failures u else 0;
    status_failures = λ u. if active u then b.status_failures u else 0;
  },
)

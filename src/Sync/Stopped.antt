-- ===== src/Sync/Stopped.antt =====
-- The stop of a take-profit order.
use supabot.Base.{
  ==_iff, ==_self, Bool-cases, Option, String, [], ap, arith, inl, inr, nat_eq, none, refl, some,
  string_eq, suc, zero, ℕ, ◌++◌, ◌<◌, ◌==◌, ◌∷◌, ◌≡◌, ◌⊎◌,
}
use supabot.Base.Float.{Float, ratio}
use supabot.Orders.Defs.{Order, ask}
use supabot.Orders.Manager.{add_order, remove_order}
use supabot.Sync.Defs.{
  Adapter, Answer, Answer-cases, Bot, Out, chain, got, notify, observe, raised, remove,
  stop_loss_done, stop_loss_unplaced, threw, val, ◌>>=◌, ◌>>◌,
}
use supabot.Sync.Linked.{add}
use supabot.Sync.Stop.{sell_at_stop, stop_sell, try_sell}

module _ {W : Type 0} where
  -- The exchange answers `n` sales in a row with no uuid.
  abbrev pub Refuses : (W → Answer (Option String) × W) → ℕ → W → W → Type 0
  Refuses sell zero w v = w ≡ v
  Refuses sell (suc n) w v = (u : W) × (sell w ≡ (got none, u)) × Refuses sell n u v

  -- The sale that is tried up to `n` times: an exception or a uuid comes after fewer than `n` refusals.
  abbrev pub Attempted : (W → Answer (Option String) × W) → ℕ → W → Out (Option String) → W → Type 0
  Attempted sell n w raised v =
      (k : ℕ) × (u : W) × (k < n) × Refuses sell k w u × (sell u ≡ (threw, v))
  Attempted sell n w (val none) v = Refuses sell n w v
  Attempted sell n w (val (some uuid)) v =
      (k : ℕ) × (u : W) × (k < n) × Refuses sell k w u × (sell u ≡ (got (some uuid), v))

  after_refusal :
      (sell : W → Answer (Option String) × W) (n : ℕ) (w u : W) (res : Out (Option String)) (v : W)
      → sell w ≡ (got none, u)
      → Attempted sell n u res v
      → Attempted sell (suc n) w res v
  after_refusal sell n w u raised v e (k, x, less, before, last) =
      (suc k, x, omega arith, (u, e, before), last)
  after_refusal sell n w u (val none) v e refused = (u, e, refused)
  after_refusal sell n w u (val (some uuid)) v e (k, x, less, before, last) =
      (suc k, x, omega arith, (u, e, before), last)

module _ {R W : Type 0} ⦃f : Float R⦄ where
  -- The attempts to sell change nothing but the world.
  try_sell_frame :
      (ad : Adapter R W) (o : Order R) (price volume : R) (n : ℕ) (b : Bot R W)
      → (try_sell ad o price volume n b).1
        ≡ record b { world = (try_sell ad o price volume n b).1.world }
  unfolding try_sell
  try_sell_frame ad o price volume zero b = refl
  try_sell_frame ad o price volume (suc n) b =
      elim (Answer-cases (ad.create_order o.user_id o.exchange o.ticker ask price volume b.world)) [
        | inr (w, e) ↦ rw e refl
        | inl (none, w, e) ↦ rw e (try_sell_frame ad o price volume n (record b { world = w }))
        | inl (some u, w, e) ↦ rw e refl
      ]

  -- The sale at the stop, as the exchange is asked for it.
  abbrev pub sale_at : Adapter R W → Order R → R → R → W → Answer (Option String) × W
  sale_at ad o price volume w = ad.create_order o.user_id o.exchange o.ticker ask price volume w

  try_sell-Attempted :
      (ad : Adapter R W) (o : Order R) (price volume : R) (n : ℕ) (b : Bot R W)
      → let (res, b') = try_sell ad o price volume n b in
        Attempted (sale_at ad o price volume) n b.world res b'.world
  unfolding try_sell
  try_sell-Attempted ad o price volume zero b = refl
  try_sell-Attempted ad o price volume (suc n) b =
      elim (Answer-cases (ad.create_order o.user_id o.exchange o.ticker ask price volume b.world)) [
        | inr (w, e) ↦ rw e (0, b.world, omega arith, refl, e)
        | inl (some u, w, e) ↦ rw e (0, b.world, omega arith, refl, e)
        | inl (none, w, e) ↦
            let b' = record b { world = w } in
            let (res, after) = try_sell ad o price volume n b' in
            rw e (
              after_refusal (sale_at ad o price volume) n b.world w res after.world e
                (try_sell-Attempted ad o price volume n b'))
      ]

  -- What has become of the order `o` when a sale for `volume` at `price` has been tried three times.
  abbrev pub IsStopped : Adapter R W → Order R → R → R → Bot R W → Out (Unit {0}) × Bot R W → Type 0
  IsStopped ad o price volume b (res, b') =
      ((res ≡ raised)
        × (b'.book ≡ b.book)
        × Attempted (sale_at ad o price volume) 3 b.world raised b'.world)
      ⊎ ((res ≡ val tt)
          × ((u : String) × (k : ℕ) × (b'.book.by_uuid u ≡ some k)
              × ((b'.book.heap k).strategy ≡ "stoploss")
              × ((b'.book.heap k).side ≡ ask)
              × ((b'.book.heap k).volume ≡ volume)
              × ((b'.book.heap k).price ≡ price)
              × ((u ≡ o.uuid) ⊎ (b'.book.by_uuid o.uuid ≡ none))
              × Attempted (sale_at ad o price volume) 3 b.world (val (some u)) b'.world))
      ⊎ ((res ≡ val tt)
          × (b'.book.by_uuid o.uuid ≡ none)
          × (b'.notes ≡ b.notes ++ (o.user_id, stop_loss_unplaced) ∷ [])
          × Refuses (sale_at ad o price volume) 3 b.world b'.world)

  after_attempts :
      (ad : Adapter R W) (o : Order R) (price volume : R) (b : Bot R W)
      (p : Out (Option String) × Bot R W)
      → p.1 ≡ record b { world = p.1.world }
      → Attempted (sale_at ad o price volume) 3 b.world p.0 p.1.world
      → IsStopped ad o price volume b (
          chain p (λ placed. do
            remove o.uuid
            now ← observe ad.now
            elim placed [
              | some u ↦ (do add (stop_sell o u price volume) now; notify o.user_id stop_loss_done)
              | none ↦ notify o.user_id stop_loss_unplaced
            ]))
  unfolding remove_order add_order
  after_attempts ad o price volume b (raised, b') e tried = inl (refl, ap (λ c. c.book) e, tried)
  after_attempts ad o price volume b (val none, b') e tried =
      inr (inr (refl, ground (arith, ==_iff o.uuid o.uuid), rw (ap (λ c. c.notes) e), tried))
  after_attempts ad o price volume b (val (some u), b') e tried = inr (
      inl (
        refl,
        (
          u,
          b'.book.next,
          ground (arith, ==_iff u u),
          rw (==_self b'.book.next) refl,
          rw (==_self b'.book.next) refl,
          rw (==_self b'.book.next) refl,
          rw (==_self b'.book.next) refl,
          elim (Bool-cases (u == o.uuid)) [
            | inl same ↦ inl ((==_iff u o.uuid).0 same)
            | inr other ↦ inr (ground (arith, ==_iff o.uuid o.uuid))
          ],
          tried,
        ),
      ))

  -- The sale at the stop, with the take-profit order cancelled at the exchange: the exchange is asked
  -- to sell what the order has left at 0.999 of the current price, adjusted to its tick, up to three
  -- times, and no more once it has given a uuid or raised. If it raised, the exception goes on and the
  -- book is as before. If it gave a uuid, the sale is tracked under it, marked as a stop, in place of
  -- the order. If it refused three times, the order is no longer tracked, and the user gets the
  -- message that says so.
  pub sell_at_stop_outcome :
      (ad : Adapter R W) (o : Order R) (current : R) (b : Bot R W)
      → let price =
          (ad.get_exchange o.exchange).adjust_price_to_tick
            (f.mul current (f.div (f.of_ℕ 999) (f.of_ℕ 1000)))
            o.ticker in
        IsStopped ad o price (f.sub o.volume o.filled_volume) b (sell_at_stop ad o current b)
  unfolding sell_at_stop
  sell_at_stop_outcome ad o current b =
      let ex = ad.get_exchange o.exchange in
      let price = ex.adjust_price_to_tick (f.mul current (ratio 999 1000)) o.ticker in
      let volume = f.sub o.volume o.filled_volume in
      after_attempts ad o price volume b (try_sell ad o price volume 3 b)
        (try_sell_frame ad o price volume 3 b) (try_sell-Attempted ad o price volume 3 b)

-- ===== src/Execution/Batch.antt =====
-- `_execute_order_batch` of src/core/order_execution.py, on the bot of Sync. The legs of a strategy are
-- computed one by one. `add_order` does not raise here, so the rollback of an order that could not be
-- registered is not modelled; the waiting between two orders has no effect on the state.
use supabot.Base.{
  Bool, Option, String, false, if◌then◌else◌, nat_eq, none, some, string_eq, suc, zero, ℕ, ◌+◌,
}
use supabot.Base.Float.{Float}
use supabot.Orders.Defs.{Linked, NewOrder, Side, reserved, wait}
use supabot.Sync.Defs.{Adapter, M, call, except, observe, pure, ◌>>=◌, ◌>>◌}
use supabot.Sync.Linked.{add}

pub record LegOrder (R : Type 0) : Type 0 where
  pub price : R
  pub volume : R
  pub side : Side
  pub strategy : String
  pub target_rsi : Option R
  pub linked_to : Option (Linked R)

-- What a leg is: no price was found, an order that is skipped and reported, or an order.
pub data Leg (R : Type 0) : Type 0 where
  silent skip : Leg R
  place : LegOrder R → Leg R

-- Where a batch goes, and the uuids of its reserved orders: "reserved:" and a random text, by the
-- index of the leg.
pub record Batch : Type 0 where
  pub user_id : String
  pub exchange : String
  pub ticker : String
  pub group_no : ℕ
  pub template_id : Option ℕ
  pub is_reserved : Bool
  pub reserved_uuid : ℕ → String

module _ {R : Type 0} where
  abbrev pub leg_order : Batch → LegOrder R → String → NewOrder R
  leg_order c l uuid = record {
    user_id = c.user_id;
    exchange = c.exchange;
    ticker = c.ticker;
    uuid = uuid;
    price = l.price;
    volume = l.volume;
    side = l.side;
    strategy = l.strategy;
    target_rsi = l.target_rsi;
    linked_to = l.linked_to;
    status = if c.is_reserved then reserved else wait;
    reorder_of = none;
    stop_price = none;
    trailing_stop_pct = none;
    group_no = some c.group_no;
    template_id = c.template_id;
    auto_reorder = false;
  }

module _ {R W : Type 0} ⦃f : Float R⦄ where
  -- The uuid of the order, or `none` where the exchange has refused or raised.
  unfoldable pub send_leg : Adapter R W → Batch → LegOrder R → ℕ → M R W (Option String)
  send_leg ad c l i =
      if c.is_reserved
      then pure (some (c.reserved_uuid i))
      else except (call (ad.create_order c.user_id c.exchange c.ticker l.side l.price l.volume))
          (pure none)

  -- One leg; the result is how many orders it has placed, and how many it has skipped.
  unfoldable pub run_leg : Adapter R W → Batch → Leg R → ℕ → M R W (ℕ × ℕ)
  unfolding send_leg
  run_leg ad c silent i = pure (0, 0)
  run_leg ad c skip i = pure (0, 1)
  run_leg ad c (place l) i = do
    placed ← send_leg ad c l i
    now ← observe ad.now
    elim placed [ none ↦ pure (0, 0) | some uuid ↦ (do add (leg_order c l uuid) now; pure (1, 0)) ]

  -- The legs from `i` on, `n` of them.
  unfoldable pub run_legs : Adapter R W → Batch → (ℕ → M R W (Leg R)) → ℕ → ℕ → M R W (ℕ × ℕ)
  unfolding run_leg
  run_legs ad c leg_fn i zero = pure (0, 0)
  run_legs ad c leg_fn i (suc n) =
      let rest = run_legs ad c leg_fn (i + 1) n in
      do
        leg ← leg_fn i
        one ← run_leg ad c leg i
        more ← rest
        pure (one.0 + more.0, one.1 + more.1)

  unfoldable pub execute_order_batch : Adapter R W → Batch → (ℕ → M R W (Leg R)) → ℕ → M R W (ℕ × ℕ)
  unfolding run_legs
  execute_order_batch ad c leg_fn count = run_legs ad c leg_fn 0 count

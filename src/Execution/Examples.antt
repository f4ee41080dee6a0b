-- ===== src/Execution/Examples.antt =====
-- The theorems on batches of orders at a concrete grid.
use supabot.Base.{
  ==_iff, arith, false, if◌then◌else◌, nat_beq, nat_eq, none, refl, string_eq, suc, zero, ℕ, ◌+◌,
  ◌<◌, ◌≡◌,
}
use supabot.Base.Int.{pos, ℤ}
use supabot.Base.Float.{int_float}
use supabot.Sync.Defs.{Adapter, val}
use supabot.Sync.Examples.{bot, exchange, kis}
use supabot.Execution.Batch.{Batch}
use supabot.Execution.Grid.{Grid, execute_grid_orders, grid_leg}
use supabot.Execution.Kept.{AreKept, execute_grid_orders_reserved, waiting_batch}

-- The exchange outside its session.
abbrev closed_exchange : Adapter ℤ ℕ
closed_exchange = record exchange {
  get_exchange = λ name. record kis { is_market_open = λ ticker now. false };
}

abbrev batch : Batch
batch = record {
  user_id = "ann";
  exchange = "kis";
  ticker = "035720";
  group_no = 2;
  template_id = none;
  is_reserved = false;
  reserved_uuid = λ i. if nat_beq i 0 then "reserved:a" else "reserved:b";
}

abbrev grid : Grid ℤ
grid = record {
  start_price = pos 100;
  end_price = pos 200;
  count = 2;
  budget_or_volume = pos 1_000;
  is_sell = false;
}

two_uuids : (i j : ℕ) → i < 2 → j < 2 → batch.reserved_uuid i ≡ batch.reserved_uuid j → i ≡ j
two_uuids zero zero hi hj e = refl
two_uuids zero (suc zero) hi hj e =
    cc ((==_iff (batch.reserved_uuid 0) (batch.reserved_uuid 1)).1 e)
two_uuids zero (suc (suc j)) hi hj e = omega (arith, hj)
two_uuids (suc zero) zero hi hj e =
    cc ((==_iff (batch.reserved_uuid 1) (batch.reserved_uuid 0)).1 e)
two_uuids (suc zero) (suc j) hi hj e = omega (arith, hj)
two_uuids (suc (suc i)) j hi hj e = omega (arith, hi)

execute_grid_orders_reserved_example :
    let (res, b') = execute_grid_orders closed_exchange batch grid bot in
    (counts : ℕ × ℕ) × (res ≡ val counts)
    × (counts.0 + counts.1 ≡ 2)
    × (b'.world ≡ 100)
    × AreKept
        (waiting_batch batch)
        (grid_leg (closed_exchange.get_exchange "kis") "035720" grid)
        0
        2
        bot.book
        b'.book
        (counts.0)
execute_grid_orders_reserved_example =
    execute_grid_orders_reserved closed_exchange batch grid bot two_uuids refl

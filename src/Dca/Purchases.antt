-- ===== src/Dca/Purchases.antt =====
-- The theorems on the execution of schedules at a concrete desk: the world is a clock in seconds, the
-- exchange is open, coins cost 100 each, and every order is taken as "u1".
use supabot.Base.{All, [], false, nat_eq, none, refl, some, string_eq, true, ℕ, ◌*◌, ◌+◌, ◌∷◌, ◌≡◌}
use supabot.Dca.Stale.{held_back_stale, row_after}
use supabot.Dca.Unpriced.{unpriced_purchase}
use supabot.Dca.Runs.{IsSupported, execute_due_counts, orders_added}
use supabot.Dca.Executed.{Admitted, execute_schedule-Outcome}
use supabot.Dca.Outcome.{Ends, Outcome}
use supabot.Dca.Execute.{execute_due_dca_schedules, execute_schedule, for_deal}
use supabot.Dca.Place.{deal_of, gate_answer, handle_answer, validate_max_order}
use supabot.Dca.Due.{Desk, Run, User, held_back}
use supabot.Dca.Price.{compute_dca_limit_price}
use supabot.Dca.Examples.{days, twice}
use supabot.Dca.Schedules.{Schedule, first_with}
use supabot.Dca.Times.{compute_next_run_at}
use supabot.Base.Float.{int_float}
use supabot.Base.Int.{pos, ℤ, ◌*ℤ◌, ◌+ℤ◌}
use supabot.Orders.Defs.{bid}
use supabot.Orders.Manager.{get_user_orders}
use supabot.Orders.Examples.{empty_book}
use supabot.Sync.Defs.{Market, got, raised, val}
use supabot.Gate.Halt.{no_row}
use supabot.Gate.Defs.{check_can_place_order, check_limits}

abbrev coins : Market ℤ ℕ
coins = record {
  supports_reserved_orders = false;
  requires_integer_volume = false;
  is_us_stock = λ ticker. false;
  round_volume = λ volume. volume;
  adjust_price_to_tick = λ price ticker. price;
  is_market_open = λ ticker now. true;
  is_order_placement_allowed = λ ticker now. true;
  next_check_timestamp = λ ticker now. pos (now + 3600);
}

abbrev ann : User ℤ
ann = record {
  is_active = true;
  max_order_krw = some (pos 1_000);
  prefs = record {
    daily_max_order_count = some (pos 3);
    daily_max_loss_krw = none;
    max_ticker_exposure_krw = none;
    max_open_exposure_krw = some (pos 5_000);
  };
}

abbrev desk : Desk ℤ ℕ
desk = record {
  get_exchange = λ name. some coins;
  get_user = λ user now. some ann;
  get_ticker = λ exchange ticker user now. (
    got (
        some
          (record { trade_price = pos 100; upper_limit_price = none; lower_limit_price = none })),
    now + 1,
  );
  ensure_toss_kr_calendar = λ user now. now;
  get_min_order_amount = λ exchange. pos 50;
  is_db_available = λ now. true;
  template_budget = λ template now. (got none, now);
  create_order = λ user exchange ticker side price volume kind now.
      (got (some (record { uuid = some "u1"; error = "" })), now + 1);
  reading = λ now. no_row;
  gate_time = λ now. now * 1_000_000;
  clock = λ now. pos now;
}

-- Two coins at the limit.
abbrev two_coins : Schedule ℤ
two_coins = record twice { amount_type = "volume"; amount = pos 2 }

-- Two coins at the market.
abbrev at_market : Schedule ℤ
at_market = record two_coins { order_type = "market" }

abbrev start : Schedule ℤ → Run ℤ ℕ
start s = record {
  book = empty_book;
  dca = record { schedules = s ∷ []; fail_counts = λ id. 0 };
  halt = record { cache = none; cache_ts = 0; flag = false };
  world = 7;
  effects = [];
  writes = [];
  notes = [];
  effective_budget = none;
}

execute_schedule-Outcome_example :
    Ends
      (Outcome
        (Admitted desk two_coins (start two_coins))
        days
        (pos 5)
        two_coins
        two_coins
        (start two_coins))
      (execute_schedule desk days (pos 5) two_coins (start two_coins))
execute_schedule-Outcome_example =
    execute_schedule-Outcome desk days (pos 5) two_coins two_coins (start two_coins) refl refl refl

execute_due_counts_example :
    Ends
      (λ n b'. (orders_added b'.effects ≡ 0 + n) × All IsSupported b'.dca.schedules)
      (execute_due_dca_schedules desk days (pos 5) (start two_coins))
execute_due_counts_example =
    execute_due_counts desk days (pos 5) (start two_coins) (refl, tt) (refl, tt)

unpriced_purchase_example :
    let deal = deal_of at_market ann coins (pos 100) (pos 100) in
    let b = start at_market in
    let b' = record b { halt = (gate_answer desk days (pos 5) deal (pos 200) b).1 } in
    ((b.effective_budget ≡ none) → for_deal desk days (pos 5) deal b ≡ (raised, b'))
    × ((x : ℤ)
        → b.effective_budget ≡ some x
        → for_deal desk days (pos 5) deal b
          ≡ handle_answer desk days
              (pos 5)
              deal
              (pos 2)
              (desk.create_order "ann" "upbit" "KRW-BTC" bid x (pos 0) "market" 7)
              b')
unfolding ◌*ℤ◌ ◌+ℤ◌ get_user_orders
unpriced_purchase_example =
    unpriced_purchase desk days (pos 5) at_market ann coins (pos 100) (pos 100) (start at_market)
      refl refl refl (unfold validate_max_order in refl)
      (unfold gate_answer check_can_place_order check_limits in refl)

held_back_stale_example :
    let b' = (held_back days (pos 5) two_coins (start two_coins)).1 in
    ((m : Schedule ℤ) × (first_with "dca_1" b'.dca.schedules ≡ some m)
      × (m.next_run_at ≡ pos 5 +ℤ pos 1_200))
    × ((r : Schedule ℤ) × (row_after "dca_1" none b'.writes ≡ some (some r))
        × (r.next_run_at ≡ pos 1))
held_back_stale_example = held_back_stale days (pos 5) two_coins (start two_coins) none refl

one_purchase : (execute_due_dca_schedules desk days (pos 5) (start two_coins)).0 ≡ val 1
unfolding ◌*ℤ◌ ◌+ℤ◌ get_user_orders execute_due_dca_schedules compute_dca_limit_price check_limits
    compute_next_run_at
one_purchase = refl

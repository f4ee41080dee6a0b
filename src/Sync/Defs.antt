-- ===== src/Sync/Defs.antt =====
-- What src/core/order_sync.py calls and keeps. The exchanges, their answers and the clock are a
-- world `W` of which nothing is assumed: each call takes the world and gives an answer and the world
-- after it. The order book is that of src/core/order_manager.py. One run is a sequence of these
-- calls; what other coroutines do between two of them is not modelled.
use supabot.Base.{
  Bool, List, Option, String, [], false, inl, inr, nat_eq, none, not, refl, some, string_eq, true,
  ℕ, ◌++◌, ◌||◌, ◌∷◌, ◌≡◌, ◌⊎◌,
}
use supabot.Base.Float.{Float, is_zero}
use supabot.Orders.Defs.{
  Effect, Linked, Manager, Order, Side, Status, ask, bid, cancel, cancel_requested, done, level,
  market_closed, partial, pending_reorder, reserved, span, wait,
}
use supabot.Orders.Manager.{remove_order}
use text.Mathlib.Text.{starts_with}

-- An answer of a call that may raise an exception.
pub data Answer (A : Type 0) : Type 0 where
  got : A → Answer A
  threw : Answer A

-- A response of `get_order_status`; its state is one of wait, partial, done, cancel.
pub record Report (R : Type 0) : Type 0 where
  pub state : Status
  pub executed_volume : R
  pub fee_amount : R

-- An entry of `get_open_orders`.
pub record Open (R : Type 0) : Type 0 where
  pub uuid : Option String
  pub side : Side
  pub price : R
  pub volume : R

-- A response of `get_ticker`.
pub record Quote (R : Type 0) : Type 0 where
  pub trade_price : R
  pub upper_limit_price : Option R
  pub lower_limit_price : Option R

pub record Balance (R : Type 0) : Type 0 where
  pub currency : String
  pub balance : R

-- The object of an exchange, `exchange_adapter.get_exchange(name)`.
pub record Market (R W : Type 0) : Type 0 where
  pub supports_reserved_orders : Bool
  pub requires_integer_volume : Bool
  pub is_us_stock : String → Bool
  pub round_volume : R → R
  pub adjust_price_to_tick : R → String → R
  pub is_market_open : String → W → Bool
  pub is_order_placement_allowed : String → W → Bool
  pub next_check_timestamp : String → W → R

-- The adapter, the signal engine, the websocket prices, the users' settings, the trading gate and
-- the clock. `create_order` answers with the uuid of the response, if there is one.
pub record Adapter (R W : Type 0) : Type 0 where
  pub get_exchange : String → Market R W
  pub create_order : String → String → String → Side → R → R → W → Answer (Option String) × W
  pub cancel_order : String → String → String → String → W → Answer Bool × W
  pub get_order_status : String → String → String → String → W → Answer (Option (Report R)) × W
  pub get_open_orders : String → String → String → W → Answer (List (Open R)) × W
  pub get_balances : String → String → W → Answer (List (Balance R)) × W
  pub get_ticker : String → String → String → W → Answer (Option (Quote R)) × W
  pub ensure_toss_kr_calendar : String → W → W
  pub get_price_by_rsi : String → String → Option R → Side → String → W → Answer (Option R) × W
  pub get_price : String → String → W → Option R
  pub stop_loss_pct : String → R
  pub is_trading_halted : W → Bool
  pub now : W → R

-- A call of `append_trade`.
pub record Trade (R : Type 0) : Type 0 where
  pub user_id : String
  pub exchange : String
  pub ticker : String
  pub side : Side
  pub price : R
  pub volume : R
  pub strategy : String
  pub uuid : String
  pub fee_amount : R
  pub group_no : Option ℕ
  pub template_id : Option ℕ

-- The messages to the user, by what they say.
pub data Note : Type 0 where
  linked_sell_created external_sold_note external_sells_cleared limit_postponed submitted : Note
  gave_up submit_failed stop_loss_done stop_loss_unplaced filled_note reorder_planned : Note
  cancelled_outside status_unknown_reorder status_unknown_dropped batch_placed : Note

pub record Bot (R W : Type 0) : Type 0 where
  pub book : Manager R
  pub world : W
  -- requests to the database, trades and messages, the oldest first
  pub requests : List (Effect R)
  pub trades : List (Trade R)
  pub notes : List (String × Note)
  -- the caches of the module; a uuid that is not in a cache counts 0
  pub limit_warned : String → Bool
  pub reorder_failures : String → ℕ
  pub status_failures : String → ℕ
  -- the caches of one run
  pub quotes : String → String → String → Option (Quote R)
  pub prices : String → String → Option R

-- The result of a coroutine: a value, or an exception that it lets through.
pub data Out (A : Type 0) : Type 0 where
  val : A → Out A
  raised : Out A

abbrev pub M : Type 0 → Type 0 → Type 0 → Type 0
M R W A = Bot R W → Out A × Bot R W

abbrev pub chain : {R W A B : Type 0} → Out A × Bot R W → (A → M R W B) → Out B × Bot R W
chain (val a, b) k = k a b
chain (raised, b) k = (raised, b)

abbrev pub handled : {R W A : Type 0} → Out A × Bot R W → M R W A → Out A × Bot R W
handled (val a, b) handler = (val a, b)
handled (raised, b) handler = handler b

infixl 5 ◌>>=◌ ◌>>◌
abbrev pub ◌>>=◌ : {R W A B : Type 0} → M R W A → (A → M R W B) → M R W B
◌>>=◌ m k b = chain (m b) k

abbrev pub ◌>>◌ : {R W A B : Type 0} → M R W A → M R W B → M R W B
m >> k = m >>= λ _. k

module _ {R W : Type 0} where
  abbrev pub pure : {A : Type 0} → A → M R W A
  pure a b = (val a, b)

  abbrev pub gets : {A : Type 0} → (Bot R W → A) → M R W A
  gets f b = (val (f b), b)

  -- `try: ... except Exception: handler`
  abbrev pub except : {A : Type 0} → M R W A → M R W A → M R W A
  except m handler b = handled (m b) handler

  -- `if test: m`, and nothing otherwise
  abbrev pub when : Bool → M R W (Unit {0}) → M R W (Unit {0})
  when true m = m
  when false m = pure tt

  abbrev pub settle : {A : Type 0} → Bot R W → Answer A × W → Out A × Bot R W
  settle b (got a, w) = (val a, record b { world = w })
  settle b (threw, w) = (raised, record b { world = w })

  -- A call to the world outside.
  abbrev pub call : {A : Type 0} → (W → Answer A × W) → M R W A
  call f b = settle b (f b.world)

  -- A method of the order book.
  abbrev pub on_book : {A : Type 0} → (Manager R → A × Manager R × List (Effect R)) → M R W A
  on_book f b =
      let (a, m, effects) = f b.book in
      (val a, record b { book = m; requests = b.requests ++ effects })

  -- The dictionary of an order, as it is at this moment.
  abbrev pub order : ℕ → M R W (Order R)
  order a b = (val (b.book.heap a), b)

  abbrev pub notify : String → Note → M R W (Unit {0})
  notify user note b = (val tt, record b { notes = b.notes ++ (user, note) ∷ [] })

  abbrev pub append_trade : Trade R → M R W (Unit {0})
  append_trade t b = (val tt, record b { trades = b.trades ++ t ∷ [] })

  abbrev pub remove : String → M R W Bool
  unfolding remove_order
  remove uuid = on_book (remove_order uuid true)

  abbrev pub observe : {A : Type 0} → (W → A) → M R W A
  observe f b = (val (f b.world), b)

abbrev pub status_eq : Status → Status → Bool
status_eq wait wait = true
status_eq partial partial = true
status_eq done done = true
status_eq cancel cancel = true
status_eq reserved reserved = true
status_eq pending_reorder pending_reorder = true
status_eq market_closed market_closed = true
status_eq cancel_requested cancel_requested = true
status_eq _ _ = false

abbrev pub is_bid : Side → Bool
is_bid bid = true
is_bid ask = false

-- `is_strategy_order` of src/core/parsers.py
unfoldable pub is_strategy_order : {R : Type 0} → Order R → Bool
is_strategy_order o =
    starts_with o.strategy "rsitrade"
    || starts_with o.strategy "grid"
    || starts_with o.strategy "sgrid"
    || starts_with o.strategy "dca"
    || starts_with o.strategy "kospi_top"

-- A target that a test takes for true: not `None`, not 0.
abbrev pub is_linked : {R : Type 0} ⦃f : Float R⦄ → Option (Linked R) → Bool
is_linked none = false
is_linked (some (level x)) = not (is_zero x)
is_linked (some (span x y)) = true

-- `resolve_linked_rsi_target` of src/core/parsers.py
abbrev pub resolve_linked_rsi_target : {R : Type 0} → Option (Linked R) → Option R
resolve_linked_rsi_target none = none
resolve_linked_rsi_target (some (level x)) = some x
resolve_linked_rsi_target (some (span x y)) = some x

-- To split on an answer of the world and keep the equation.
pub Answer-cases :
    {A W : Type 0} (p : Answer A × W)
    → ((a : A) × (w : W) × (p ≡ (got a, w))) ⊎ ((w : W) × (p ≡ (threw, w)))
Answer-cases (got a, w) = inl (a, w, refl)
Answer-cases (threw, w) = inr (w, refl)

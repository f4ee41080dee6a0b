-- ===== src/Dca/Due.antt =====
-- The state of a run of `execute_due_dca_schedules` in src/core/dca_manager.py, what the run asks of
-- other parts, and the ways in which it leaves a schedule without an order. The gate is that of
-- src/core/trading_gate.py, the order book that of src/core/order_manager.py.
use supabot.Base.{
  Bool, List, Option, String, [], false, if◌then◌else◌, leb, nat_eq, none, some, string_eq, true, ℕ,
  ◌++◌, ◌+◌, ◌==◌, ◌∷◌,
}
use supabot.Dca.Manager.{advance_schedule, defer_schedule, remove_schedule}
use supabot.Dca.Schedules.{Dca, Request, Schedule, upsert}
use supabot.Dca.Times.{Calendar}
use supabot.Base.Float.{Float}
use supabot.Orders.Defs.{Effect, Manager, Side, at}
use supabot.Sync.Defs.{Answer, Market, Out, Quote, got, raised, threw, val}
use supabot.Gate.Halt.{Halt, Reading}
use supabot.Gate.Defs.{Prefs}

-- The messages to the user, by what they say; `submitted true` says that a postponed order was placed.
pub data DcaNote : Type 0 where
  halt_postponed holiday_skipped holiday_postponed quotes_failed no_budget : DcaNote
  no_volume below_minimum over_maximum gate_refused orders_failed : DcaNote
  submitted : Bool → DcaNote

-- What the run reads of a user.
pub record User (R : Type 0) : Type 0 where
  pub is_active : Bool
  pub max_order_krw : Option R
  pub prefs : Prefs R

-- A response of `create_order`: the uuid if the key is there, and the text of the error, which is
-- empty if there is none.
pub record Response : Type 0 where
  pub uuid : Option String
  pub error : String

-- The adapter, the users, the database and the clocks. Nothing is assumed of the world `W`.
pub record Desk (R W : Type 0) : Type 0 where
  pub get_exchange : String → Option (Market R W)
  pub get_user : String → W → Option (User R)
  pub get_ticker : String → String → String → W → Answer (Option (Quote R)) × W
  pub ensure_toss_kr_calendar : String → W → W
  pub get_min_order_amount : String → R
  pub is_db_available : W → Bool
  -- the value of "carryover_budget" in the row of the template, if both are there
  pub template_budget : ℕ → W → Answer (Option R) × W
  -- the user, the exchange, the ticker, the side, the price, the volume and the type of the order
  pub create_order :
      String → String → String → Side → R → R → String → W → Answer (Option Response) × W
  -- what the gate reads: the answer for its key, and the time in microseconds
  pub reading : W → Reading
  pub gate_time : W → ℕ
  -- `time.time()`
  pub clock : W → R

pub record Run (R W : Type 0) : Type 0 where
  pub book : Manager R
  pub dca : Dca R
  pub halt : Halt
  pub world : W
  -- requests to the database for the orders and for the schedules, and messages, the oldest first
  pub effects : List (Effect R)
  pub writes : List (Request R)
  pub notes : List (String × DcaNote)
  -- the local variable `effective_budget`, which the schedules of one run share
  pub effective_budget : Option R

abbrev pub sidecar_retry_seconds : ℕ
sidecar_retry_seconds = 1_200

abbrev pub retry_delay_seconds : ℕ
retry_delay_seconds = 300

abbrev pub max_consecutive_fails : ℕ
max_consecutive_fails = 3

module _ {R W : Type 0} where
  abbrev pub in_world : W → Run R W → Run R W
  in_world w b = record b { world = w }

  abbrev pub noted : String → DcaNote → Run R W → Run R W
  noted user note b = record b { notes = b.notes ++ (user, note) ∷ [] }

  abbrev pub noted? : String → Option DcaNote → Run R W → Run R W
  noted? user none b = b
  noted? user (some note) b = noted user note b

  abbrev pub wrote : List (Request R) → Dca R → Run R W → Run R W
  wrote requests d b = record b { dca = d; writes = b.writes ++ requests }

  abbrev pub count_fails : String → ℕ → Run R W → Run R W
  count_fails id n b = record b { dca = record b.dca { fail_counts = at b.dca.fail_counts id n } }

  unfoldable pub deferred : String → R → Run R W → Run R W
  unfolding defer_schedule
  deferred id t b = let (_, d, requests) = defer_schedule id t b.dca in wrote requests d b

  unfoldable pub dropped : String → Run R W → Run R W
  unfolding remove_schedule
  dropped id b = let (_, d, requests) = remove_schedule id none b.dca in wrote requests d b

  -- The marks go on the copy of the schedule, which is written to the database.
  abbrev pub marked : Schedule R → String → Run R W → Run R W
  marked s reason b =
      wrote (upsert (record s { is_carryover = true; carryover_reason = some reason }) ∷ []) b.dca b

  -- What follows a step that may raise.
  abbrev pub after :
      {A B : Type 0} → Out A × Run R W → (A → Run R W → Out B × Run R W) → Out B × Run R W
  after (val a, b) k = k a b
  after (raised, b) k = (raised, b)

  -- `try: ... except Exception: handler`
  abbrev pub unless_raised :
      {A : Type 0} → Out A × Run R W → (Run R W → Out A × Run R W) → Out A × Run R W
  unless_raised (val a, b) handler = (val a, b)
  unless_raised (raised, b) handler = handler b

  abbrev pub from_answer : {A : Type 0} → Answer A → Run R W → Out A × Run R W
  from_answer (got a) b = (val a, b)
  from_answer threw b = (raised, b)

module _ {R W D : Type 0} ⦃f : Float R⦄ (cal : Calendar R D) (now : R) where
  unfoldable pub advanced : String → Bool → Run R W → Out (Option (Schedule R)) × Run R W
  unfolding advance_schedule
  advanced id increment b =
      let (result, d, requests) = advance_schedule cal id now increment b.dca in
      from_answer result (wrote requests d b)

  -- The schedule is skipped until its next time; the result is the number of orders.
  unfoldable pub skipped : Schedule R → Option DcaNote → Run R W → Out ℕ × Run R W
  unfolding advanced
  skipped s note b = after (advanced s.id false b) (λ _ b'. (val 0, noted? s.user_id note b'))

  -- Trading is stopped: the schedule waits for 20 minutes.
  unfoldable pub held_back : Schedule R → Run R W → Out ℕ × Run R W
  unfolding deferred
  held_back s b =
      let b' = deferred s.id (f.add now (f.of_ℕ sidecar_retry_seconds)) b in
      (val 0, noted s.user_id halt_postponed (marked s "sidecar_halt" b'))

  -- One more failure; after the third one in a row the schedule is skipped. The operational event of a
  -- failed order is left out.
  unfoldable pub failed_again : Schedule R → DcaNote → Run R W → Out ℕ × Run R W
  unfolding deferred skipped
  failed_again s note b =
      let fails = b.dca.fail_counts s.id + 1 in
      if leb max_consecutive_fails fails then skipped s (some note) (count_fails s.id 0 b) else (
        val 0,
        deferred s.id (f.add now (f.of_ℕ retry_delay_seconds)) (count_fails s.id fails b),
      )

  abbrev pub opening : Market R W → String → W → R
  opening ex ticker w =
      let next_open = ex.next_check_timestamp ticker w in
      if f.le next_open now then f.add now (f.of_ℕ sidecar_retry_seconds) else next_open

  -- The exchange is closed.
  unfoldable pub closed : Schedule R → Market R W → Run R W → Out ℕ × Run R W
  unfolding deferred skipped
  closed s ex b =
      if s.carryover_mode == "skip"
      then skipped s (some holiday_skipped) b
      else (if s.carryover_mode == "delay_20m"
          then (val 0, deferred s.id (f.add now (f.of_ℕ sidecar_retry_seconds)) b)
          else (let b' = deferred s.id (opening ex s.ticker b.world) b in
              (
                val 0,
                if s.is_carryover
                    then b'
                    else noted s.user_id holiday_postponed (marked s "holiday" b'),
              )))

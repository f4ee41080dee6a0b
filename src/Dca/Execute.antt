-- ===== src/Dca/Execute.antt =====
-- `execute_due_dca_schedules` of src/core/dca_manager.py: from the schedules that are due to their
-- orders. The waiting between two schedules has no effect on the state.
use supabot.Base.{
  Bool, List, Option, String, [], filter, if◌then◌else◌, nat_eq, none, not, some, string_eq, ℕ,
  ◌&&◌, ◌+◌, ◌==◌, ◌∷◌,
}
use supabot.Dca.Place.{Deal, deal_of, for_amount, in_dollars}
use supabot.Dca.Due.{
  Desk, Run, User, after, closed, dropped, failed_again, held_back, in_world, no_budget,
  quotes_failed, skipped, unless_raised,
}
use supabot.Dca.Price.{compute_dca_limit_price}
use supabot.Dca.Schedules.{Schedule, get_schedule, is_active}
use supabot.Dca.Times.{Calendar}
use supabot.Base.Float.{Float, fmin}
use supabot.Base.Text.{is_digit}
use supabot.Sync.Defs.{Answer, Market, Out, Quote, got, is_bid, threw, val}
use supabot.Gate.Halt.{Halt, is_trading_halted}

abbrev pub quote_of : {A : Type 0} → Answer (Option A) → Option A
quote_of threw = none
quote_of (got q) = q

abbrev pub price_of : {R : Type 0} ⦃f : Float R⦄ → Option (Quote R) → R
price_of ⦃f⦄ none = f.of_ℕ 0
price_of (some q) = q.trade_price

module _ {R W : Type 0} where
  abbrev pub is_open : Market R W → String → W → Bool
  is_open ex ticker w = ex.is_market_open ticker w && ex.is_order_placement_allowed ticker w

  -- The calendar of Korean days is read for Korean stocks at this broker.
  abbrev pub calendar_world : Desk R W → Schedule R → W → W
  calendar_world desk s w =
      if s.exchange == "toss" && is_digit s.ticker
      then desk.ensure_toss_kr_calendar s.user_id w
      else w

  -- Whether trading is stopped, and the state of the gate after it.
  unfoldable pub halt_answer : Desk R W → Run R W → Bool × Halt
  unfolding is_trading_halted
  halt_answer desk b = is_trading_halted (desk.reading b.world) (desk.gate_time b.world) b.halt

module _ {R W D : Type 0} ⦃f : Float R⦄ (desk : Desk R W) (cal : Calendar R D) (now : R) where
  -- The budget of the template: what is left of it limits the amount. A failed query is ignored, and
  -- so is an exception of the skip.
  unfoldable pub within_template : Deal R W → Answer (Option R) × W → Run R W → Out ℕ × Run R W
  unfolding for_amount skipped
  within_template deal (threw, w) b =
      for_amount desk cal now deal deal.schedule.amount (in_world w b)
  within_template deal (got none, w) b =
      for_amount desk cal now deal deal.schedule.amount (in_world w b)
  within_template deal (got (some left), w) b =
      if f.le left (f.of_ℕ 0)
      then unless_raised (skipped cal now deal.schedule (some no_budget) (in_world w b))
          (for_amount desk cal now deal deal.schedule.amount)
      else for_amount desk cal now deal (fmin deal.schedule.amount left) (in_world w b)

  -- The template whose budget counts: for purchases in won, by an amount of money.
  abbrev pub budgeted : Schedule R → W → Option ℕ
  budgeted s w =
      if is_bid s.side && s.amount_type == "budget" && not (in_dollars s) && desk.is_db_available w
      then s.template_id
      else none

  unfoldable pub for_deal : Deal R W → Run R W → Out ℕ × Run R W
  unfolding for_amount within_template
  for_deal deal b = elim (budgeted deal.schedule b.world) [
    | none ↦ for_amount desk cal now deal deal.schedule.amount b
    | some template ↦ within_template deal (desk.template_budget template b.world) b
  ]

  -- Without a price there is no order.
  unfoldable pub for_quote :
      Schedule R → User R → Market R W → Option (Quote R) → Run R W → Out ℕ × Run R W
  unfolding for_deal failed_again compute_dca_limit_price
  for_quote s user ex quote b =
      let current = price_of quote in
      if f.le current (f.of_ℕ 0)
      then failed_again cal now s quotes_failed b
      else for_deal
          (deal_of s user ex current (compute_dca_limit_price ex s.ticker s.side current quote)) b

  unfoldable pub at_exchange : Schedule R → User R → Market R W → Run R W → Out ℕ × Run R W
  unfolding for_quote closed
  at_exchange s user ex b =
      if is_open ex s.ticker b.world
      then (let (answer, w) = desk.get_ticker s.exchange s.ticker s.user_id b.world in
          for_quote s user ex (quote_of answer) (in_world w b))
      else closed cal now s ex b

  -- A schedule of no active user or of an unknown exchange is removed.
  unfoldable pub for_user : Schedule R → Option (User R) → Run R W → Out ℕ × Run R W
  unfolding at_exchange dropped
  for_user s none b = (val 0, dropped s.id b)
  for_user s (some user) b =
      if user.is_active
      then elim (desk.get_exchange s.exchange) [
        | none ↦ (val 0, dropped s.id b)
        | some ex ↦ at_exchange s user ex (in_world (calendar_world desk s b.world) b)
      ]
      else (val 0, dropped s.id b)

  unfoldable pub execute_schedule : Schedule R → Run R W → Out ℕ × Run R W
  unfolding for_user held_back halt_answer
  execute_schedule s b =
      let (stopped, h) = halt_answer desk b in
      let b' = record b { halt = h } in
      if stopped then held_back cal now s b' else for_user s (desk.get_user s.user_id b'.world) b'

  -- The copies of the schedules that are due, and the number of orders; a schedule that was removed
  -- meanwhile is left out.
  unfoldable pub execute_all : List (Schedule R) → ℕ → Run R W → Out ℕ × Run R W
  unfolding execute_schedule get_schedule
  execute_all [] count b = (val count, b)
  execute_all (s ∷ rest) count b = elim (get_schedule s.id none b.dca) [
    | none ↦ execute_all rest count b
    | some _ ↦ after (execute_schedule s b) (λ n b'. execute_all rest (count + n) b')
  ]

  abbrev pub is_due : Schedule R → Bool
  is_due s = is_active s.status && f.le s.next_run_at now

  unfoldable pub execute_due_dca_schedules : Run R W → Out ℕ × Run R W
  unfolding execute_all
  execute_due_dca_schedules b =
      execute_all (filter is_due b.dca.schedules) 0 (record b { effective_budget = none })

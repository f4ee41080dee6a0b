-- ===== src/Dca/Executed.antt =====
-- Every schedule of src/core/dca_manager.py that is due comes to one of its ends.
use supabot.Base.{
  Bool-cases, Option, Option-cases, ap, false, if_both, inl, inr, nat_eq, none, refl, some,
  string_eq, sym, true, ℕ, ◌∙◌, ◌≡◌,
}
use supabot.Dca.Waits.{closed-Outcome, failed_again-Outcome, held_back-Outcome}
use supabot.Dca.Ordered.{for_deal-Outcome}
use supabot.Dca.Outcome.{Ends, Outcome, Same, dropped-Outcome, lacks_budget}
use supabot.Dca.Execute.{
  at_exchange, calendar_world, execute_schedule, for_quote, for_user, halt_answer, is_open,
  price_of, quote_of,
}
use supabot.Dca.Due.{Desk, Run, User, in_world, quotes_failed}
use supabot.Dca.Schedules.{Schedule, first_with}
use supabot.Dca.Times.{Calendar}
use supabot.Dca.Lifetime.{is_supported}
use supabot.Dca.Price.{compute_dca_limit_price}
use supabot.Base.Float.{Float}
use supabot.Sync.Defs.{Market, Out, Quote}
use supabot.Gate.Halt.{Halt}

-- What is known when an order of the schedule is placed: trading is not stopped, the user is active,
-- and the exchange is open for the ticker.
abbrev pub Admitted : {R W : Type 0} ⦃f : Float R⦄ → Desk R W → Schedule R → Run R W → Type 0
Admitted {R} {W} desk s b =
    ((halt_answer desk b).0 ≡ false)
    × ((user : User R) × (desk.get_user s.user_id b.world ≡ some user) × (user.is_active ≡ true))
    × ((ex : Market R W) × (desk.get_exchange s.exchange ≡ some ex)
        × (is_open ex s.ticker (calendar_world desk s b.world) ≡ true))

module _ {R W D : Type 0} ⦃f : Float R⦄ (desk : Desk R W) (cal : Calendar R D) (now : R)
    (s m : Schedule R) (b : Run R W) (found : first_with s.id b.dca.schedules ≡ some m)
    (supported : is_supported m.timing ≡ true) (priced : lacks_budget s ≡ false) where
  abbrev End : Out ℕ × Run R W → Type 0
  End = Ends (Outcome (Admitted desk s b) cal now s m b)

  for_quote-Outcome :
      (user : User R) (ex : Market R W) (quote : Option (Quote R)) (b' : Run R W)
      → Admitted desk s b
      → Same b b'
      → End (for_quote desk cal now s user ex quote b')
  unfolding for_quote
  for_quote-Outcome user ex quote b' admitted same =
      let current = price_of quote in
      if_both End (f.le current (f.of_ℕ 0)) _ _
        (failed_again-Outcome cal now s m b found supported (Admitted desk s b) quotes_failed b'
          same)
        (for_deal-Outcome desk cal now s m b found supported (Admitted desk s b) admitted priced
          user ex current (compute_dca_limit_price ex s.ticker s.side current quote) b' same)

  at_exchange-Outcome :
      (user : User R) (ex : Market R W) (b' : Run R W)
      → (is_open ex s.ticker b'.world ≡ true → Admitted desk s b)
      → Same b b'
      → End (at_exchange desk cal now s user ex b')
  unfolding at_exchange
  at_exchange-Outcome user ex b' admitted same = elim (Bool-cases (is_open ex s.ticker b'.world)) [
    | inl o ↦
        let (answer, w) = desk.get_ticker s.exchange s.ticker s.user_id b'.world in
        rw (o, Ends) (for_quote-Outcome user ex (quote_of answer) (in_world w b') (admitted o) same)
    | inr c ↦
        rw (c, Ends) (closed-Outcome cal now s m b found supported (Admitted desk s b) ex b' same)
  ]

  at_market-Outcome :
      (user : User R) (ex : Market R W) (b' : Run R W)
      → (halt_answer desk b).0 ≡ false
      → desk.get_user s.user_id b.world ≡ some user
      → user.is_active ≡ true
      → desk.get_exchange s.exchange ≡ some ex
      → b'.world ≡ calendar_world desk s b.world
      → Same b b'
      → End (at_exchange desk cal now s user ex b')
  at_market-Outcome user ex b' going known ready listed here same =
      at_exchange-Outcome user ex b'
        (λ opened.
          (going, (user, known, ready), (ex, listed, ap (is_open ex s.ticker) (sym here) ∙ opened)))
        same

  for_user-Outcome :
      (h : Halt) (u : Option (User R))
      → (halt_answer desk b).0 ≡ false
      → desk.get_user s.user_id b.world ≡ u
      → End (for_user desk cal now s u (record b { halt = h }))
  unfolding for_user
  for_user-Outcome h none going known =
      dropped-Outcome cal now s m b found supported (Admitted desk s b) (record b { halt = h })
        (refl, (refl, refl))
  for_user-Outcome h (some user) going known =
      let b' = record b { halt = h } in
      let gone =
        dropped-Outcome cal now s m b found supported (Admitted desk s b) b' (refl, (refl, refl)) in
      elim (Bool-cases user.is_active) [
        | inr inactive ↦ rw (inactive, Ends) gone
        | inl ready ↦ elim (Option-cases (desk.get_exchange s.exchange)) [
          | inl unknown ↦ rw (ready, unknown, Ends) gone
          | inr (ex, listed) ↦
              rw (ready, listed, Ends)
                (at_market-Outcome user ex (in_world (calendar_world desk s b.world) b') going known
                  ready listed refl (refl, (refl, refl)))
        ]
      ]

  -- A schedule that is due, of a frequency that the program knows and not a purchase of coins at the
  -- market by volume, comes to one of these ends without an exception: it is removed, or postponed to
  -- one of the times that IsPostponed names, or passed over until its next time, and then the orders
  -- are as they were; or, with trading going on, an active user and an open exchange, one order of it
  -- goes to the order book and the database, and one more of its runs is counted.
  pub execute_schedule-Outcome :
      Ends (Outcome (Admitted desk s b) cal now s m b) (execute_schedule desk cal now s b)
  unfolding execute_schedule
  execute_schedule-Outcome =
      let h = (halt_answer desk b).1 in
      elim (Bool-cases (halt_answer desk b).0) [
        | inl stopped ↦
            rw (stopped, Ends)
              (held_back-Outcome cal now s m b found supported (Admitted desk s b)
                (record b { halt = h }) (refl, (refl, refl)))
        | inr going ↦
            rw (going, Ends) (for_user-Outcome h (desk.get_user s.user_id b.world) going refl)
      ]

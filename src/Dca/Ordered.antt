-- ===== src/Dca/Ordered.antt =====
-- From the price of a schedule that is due to its order, in src/core/dca_manager.py.
use supabot.Base.{
  Bool-cases, Option, Option-cases, String, ap, false, if_both, if◌then◌else◌, inl, inr, nat_eq,
  none, not, refl, some, string_eq, subst, sym, true, ◌&&◌, ◌++◌, ◌==◌, ◌∙◌, ◌≡◌,
}
use supabot.Dca.Waits.{failed_again-Outcome, held_back-Outcome}
use supabot.Dca.Outcome.{
  Ends, Ends-after, Ends-unless_raised, Outcome, Same, advanced-Turned, lacks_budget, placed,
  skipped-Outcome,
}
use supabot.Dca.Execute.{budgeted, for_deal, within_template}
use supabot.Dca.Place.{
  Deal, checked, deal_of, effective, entry_for, for_amount, gate_answer, gated, handle_answer,
  handle_response, in_book, in_dollars, is_coin_exchange, is_sidecar_error, order_amounts,
  registered, sized, submit, validate_max_order,
}
use supabot.Dca.Due.{
  Desk, Response, Run, User, advanced, below_minimum, count_fails, gate_refused, in_world,
  no_budget, no_volume, orders_failed, over_maximum, skipped,
}
use supabot.Dca.Schedules.{Schedule, first_with}
use supabot.Dca.Times.{Calendar}
use supabot.Dca.Lifetime.{is_supported}
use supabot.Base.Float.{Float, fmin}
use supabot.Orders.Manager.{add_order}
use supabot.Sync.Defs.{Answer, Market, got, is_bid, threw}
use supabot.Gate.Halt.{Halt}
use supabot.Gate.Defs.{Refused}

order_amounts_paid :
    {R : Type 0} ⦃f : Float R⦄ (s : Schedule R) (price volume x : R)
    → (p : R × R) × (order_amounts s price volume (some x) ≡ some p)
order_amounts_paid s price volume x = elim (Bool-cases (s.order_type == "market")) [
  | inr limit ↦ rw limit (_, refl)
  | inl market ↦ elim (Bool-cases (is_bid s.side && is_coin_exchange s.exchange)) [
    | inl coins ↦ rw (market, coins) (_, refl)
    | inr other ↦ rw (market, other) (_, refl)
  ]
]

order_amounts_counted :
    {R : Type 0} ⦃f : Float R⦄ (s : Schedule R) (price volume : R) (budget : Option R)
    → lacks_budget s ≡ false
    → (s.amount_type == "volume") ≡ true
    → (p : R × R) × (order_amounts s price volume budget ≡ some p)
order_amounts_counted s price volume budget priced by_volume =
    elim (Bool-cases (s.order_type == "market")) [
      | inr limit ↦ rw limit (_, refl)
      | inl market ↦
          let other : (is_bid s.side && is_coin_exchange s.exchange) ≡ false =
            rw (by_volume, market) at priced in
          rw (market, other) (_, refl)
    ]

module _ {R W D : Type 0} ⦃f : Float R⦄ (desk : Desk R W) (cal : Calendar R D) (now : R)
    (s m : Schedule R) (b : Run R W) (found : first_with s.id b.dca.schedules ≡ some m)
    (supported : is_supported m.timing ≡ true) (A : Type 0) (admitted : A)
    (priced : lacks_budget s ≡ false) (user : User R) (ex : Market R W) (current price : R) where
  abbrev deal : Deal R W
  deal = deal_of s user ex current price

  registered-Outcome :
      (volume : R) (uuid : String) (b' : Run R W)
      → Same b b'
      → Ends (Outcome A cal now s m b) (registered desk cal now deal volume uuid b')
  unfolding registered
  registered-Outcome volume uuid b' same =
      let o = entry_for deal volume uuid in
      let t = desk.clock b'.world in
      let b1 = in_book (add_order o t b'.book) (count_fails s.id 0 b') in
      Ends-after (Outcome A cal now s m b) (advanced cal now s.id true b1) _
        (advanced-Turned cal now s m b found supported true b1 same.0)
        (λ x b2 end.
          placed admitted o t refl (refl, refl, refl, refl, refl, refl)
            (end.0.0 ∙ ap (λ book. (add_order o t book).0) same.1.0)
            (end.0.1
              ∙ ap (λ book. b'.effects ++ (add_order o t book).1) same.1.0
              ∙ ap (λ es. es ++ (add_order o t b.book).1) same.1.1)
            end.1)

  handle_answer-Outcome :
      (volume : R) (answer : Answer (Option Response) × W) (b' : Run R W)
      → Same b b'
      → Ends (Outcome A cal now s m b) (handle_answer desk cal now deal volume answer b')
  unfolding handle_answer handle_response
  handle_answer-Outcome volume (threw, w) b' same =
      failed_again-Outcome cal now s m b found supported A orders_failed (in_world w b') same
  handle_answer-Outcome volume (got none, w) b' same =
      failed_again-Outcome cal now s m b found supported A orders_failed (in_world w b') same
  handle_answer-Outcome volume (got (some r), w) b' same =
      elim (Bool-cases (is_sidecar_error r.error)) [
        | inl stopped ↦
            rw (stopped, Ends)
              (held_back-Outcome cal now s m b found supported A (in_world w b') same)
        | inr other ↦ elim (Option-cases r.uuid) [
          | inl missing ↦
              rw (other, missing, Ends)
                (failed_again-Outcome cal now s m b found supported A orders_failed (in_world w b')
                  same)
          | inr (uuid, e) ↦
              rw (other, e, Ends) (registered-Outcome volume uuid (in_world w b') same)
        ]
      ]

  abbrev CanPay : R → Run R W → Type 0
  CanPay volume b' = (p : R × R) × (order_amounts s price volume b'.effective_budget ≡ some p)

  submit_lem :
      (volume : R) (b' : Run R W) (p : R × R)
      → order_amounts s price volume b'.effective_budget ≡ some p
      → submit desk cal now deal volume b'
        ≡ handle_answer desk cal now deal volume
            (desk.create_order s.user_id s.exchange s.ticker s.side p.0 p.1 s.order_type b'.world)
            b'
  unfolding submit
  submit_lem volume b' p paid = rw (paid, submit) refl

  submit-Outcome :
      (volume : R) (b' : Run R W)
      → CanPay volume b'
      → Same b b'
      → Ends (Outcome A cal now s m b) (submit desk cal now deal volume b')
  submit-Outcome volume b' (p, paid) same =
      subst (Ends (Outcome A cal now s m b)) (sym (submit_lem volume b' p paid)) (
        handle_answer-Outcome volume
          (desk.create_order s.user_id s.exchange s.ticker s.side p.0 p.1 s.order_type b'.world) b'
          same)

  gated-Outcome :
      (volume : R) (answer : Option Refused × Halt) (b' : Run R W)
      → CanPay volume b'
      → Same b b'
      → Ends (Outcome A cal now s m b) (gated desk cal now deal volume answer b')
  unfolding gated
  gated-Outcome volume (none, h) b' pays same =
      submit-Outcome volume (record b' { halt = h }) pays same
  gated-Outcome volume (some reason, h) b' pays same =
      skipped-Outcome cal now s m b found supported A (some gate_refused) (record b' { halt = h })
        same

  checked-Outcome :
      (volume : R) (b' : Run R W)
      → CanPay volume b'
      → Same b b'
      → Ends (Outcome A cal now s m b) (checked desk cal now deal volume b')
  unfolding checked
  checked-Outcome volume b' pays same =
      let End = Ends (Outcome A cal now s m b) in
      if_both End (is_bid s.side) _ _
        (if_both End (validate_max_order user.max_order_krw (f.mul price volume) (in_dollars s)) _ _
          (gated-Outcome volume (gate_answer desk cal now deal (f.mul price volume) b') b' pays
            same)
          (skipped-Outcome cal now s m b found supported A (some over_maximum) b' same))
        (submit-Outcome volume b' pays same)

  sized-Outcome :
      (volume : R) (b' : Run R W)
      → CanPay volume b'
      → Same b b'
      → Ends (Outcome A cal now s m b) (sized desk cal now deal volume b')
  unfolding sized
  sized-Outcome volume b' pays same =
      let End = Ends (Outcome A cal now s m b) in
      if_both End (f.le volume (f.of_ℕ 0)) _ _
        (skipped-Outcome cal now s m b found supported A
          (if ex.requires_integer_volume then some no_volume else none) b' same)
        (if_both End
          (not (in_dollars s) && f.lt (f.mul price volume) (desk.get_min_order_amount s.exchange)) _
          _ (skipped-Outcome cal now s m b found supported A (some below_minimum) b' same)
          (checked-Outcome volume b' pays same))

  for_amount-Outcome :
      (amount : R) (b' : Run R W)
      → Same b b'
      → Ends (Outcome A cal now s m b) (for_amount desk cal now deal amount b')
  unfolding for_amount
  for_amount-Outcome amount b' same = elim (Bool-cases (s.amount_type == "volume")) [
    | inl by_volume ↦
        rw (by_volume, Ends)
          (sized-Outcome (ex.round_volume amount) b'
            (order_amounts_counted s price (ex.round_volume amount) b'.effective_budget priced
              by_volume)
            same)
    | inr by_budget ↦
        rw (by_budget, Ends)
          (sized-Outcome _ (record b' { effective_budget = some (effective s amount) })
            (order_amounts_paid s price _ (effective s amount)) same)
  ]

  within_template-Outcome :
      (answer : Answer (Option R) × W) (b' : Run R W)
      → Same b b'
      → Ends (Outcome A cal now s m b) (within_template desk cal now deal answer b')
  unfolding within_template
  within_template-Outcome (threw, w) b' same = for_amount-Outcome s.amount (in_world w b') same
  within_template-Outcome (got none, w) b' same = for_amount-Outcome s.amount (in_world w b') same
  within_template-Outcome (got (some left), w) b' same =
      let End = Ends (Outcome A cal now s m b) in
      if_both End (f.le left (f.of_ℕ 0)) _ _
        (Ends-unless_raised (Outcome A cal now s m b)
          (skipped cal now s (some no_budget) (in_world w b')) _
          (skipped-Outcome cal now s m b found supported A (some no_budget) (in_world w b') same))
        (for_amount-Outcome (fmin s.amount left) (in_world w b') same)

  pub for_deal-Outcome :
      (b' : Run R W) → Same b b' → Ends (Outcome A cal now s m b) (for_deal desk cal now deal b')
  unfolding for_deal
  for_deal-Outcome b' same = elim (Option-cases (budgeted desk cal now s b'.world)) [
    | inl e ↦ rw (e, Ends) (for_amount-Outcome s.amount b' same)
    | inr (template, e) ↦
        rw (e, Ends) (within_template-Outcome (desk.template_budget template b'.world) b' same)
  ]

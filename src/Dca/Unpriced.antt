-- ===== src/Dca/Unpriced.antt =====
-- A purchase of coins at the market by volume, in src/core/dca_manager.py.
use supabot.Base.{
  ==_iff, ap, arith, false, nat_eq, none, not, refl, some, string_eq, true, ◌&&◌, ◌==◌, ◌∙◌, ◌≡◌,
}
use supabot.Dca.Outcome.{lacks_budget}
use supabot.Dca.Execute.{budgeted, for_deal}
use supabot.Dca.Place.{
  Deal, checked, deal_of, for_amount, gate_answer, gated, handle_answer, in_dollars,
  is_coin_exchange, order_amounts, sized, submit, validate_max_order,
}
use supabot.Dca.Due.{Desk, Run, User}
use supabot.Dca.Schedules.{Schedule}
use supabot.Dca.Times.{Calendar}
use supabot.Base.Float.{Float}
use supabot.Sync.Defs.{Market, is_bid, raised}

module _ {R W D : Type 0} ⦃f : Float R⦄ (desk : Desk R W) (cal : Calendar R D) (now : R)
    (s : Schedule R) (user : User R) (ex : Market R W) (current price : R) (b : Run R W) where
  abbrev deal : Deal R W
  deal = deal_of s user ex current price

  to_amount :
      (s.amount_type == "volume") ≡ true
      → for_deal desk cal now deal b ≡ for_amount desk cal now deal s.amount b
  unfolding for_deal
  to_amount by_volume =
      let not_budget : (s.amount_type == "budget") ≡ false =
        ap (λ t. t == "budget") ((==_iff s.amount_type "volume").0 by_volume) in
      let none_budgeted : budgeted desk cal now s b.world ≡ none = ground (arith, not_budget) in
      rw (none_budgeted, for_deal) refl

  to_sized :
      (s.amount_type == "volume") ≡ true
      → for_amount desk cal now deal s.amount b
        ≡ sized desk cal now deal (ex.round_volume s.amount) b
  unfolding for_amount
  to_sized by_volume = rw (by_volume, for_amount) refl

  module _ (volume : R) where
    abbrev total : R
    total = f.mul price volume

    abbrev after_gate : Run R W
    after_gate = record b { halt = (gate_answer desk cal now deal total b).1 }

    to_checked :
        f.le volume (f.of_ℕ 0) ≡ false
        → (not (in_dollars s) && f.lt total (desk.get_min_order_amount s.exchange)) ≡ false
        → sized desk cal now deal volume b ≡ checked desk cal now deal volume b
    unfolding sized
    to_checked enough above = rw (enough, above, sized) refl

    to_gated :
        is_bid s.side ≡ true
        → validate_max_order user.max_order_krw total (in_dollars s) ≡ true
        → checked desk cal now deal volume b
          ≡ gated desk cal now deal volume (gate_answer desk cal now deal total b) b
    unfolding checked
    to_gated bought below = rw (bought, below, checked) refl

    to_submit :
        (gate_answer desk cal now deal total b).0 ≡ none
        → gated desk cal now deal volume (gate_answer desk cal now deal total b) b
          ≡ submit desk cal now deal volume after_gate
    unfolding gated
    to_submit passed = rw (passed, gated) refl

    submit_unpriced :
        order_amounts s price volume b.effective_budget ≡ none
        → submit desk cal now deal volume after_gate ≡ (raised, after_gate)
    unfolding submit
    submit_unpriced e = rw (e, submit) refl

    submit_priced :
        (x : R)
        → order_amounts s price volume b.effective_budget ≡ some (x, f.of_ℕ 0)
        → submit desk cal now deal volume after_gate
          ≡ handle_answer desk cal now deal volume
              (desk.create_order s.user_id s.exchange s.ticker s.side x
                (f.of_ℕ 0)
                s.order_type
                b.world)
              after_gate
    unfolding submit
    submit_priced x e = rw (e, submit) refl

    order_amounts_bought :
        lacks_budget s ≡ true
        → order_amounts s price volume b.effective_budget
          ≡ elim b.effective_budget [ none ↦ none | some x ↦ some (x, f.of_ℕ 0) ]
    order_amounts_bought lacks =
        let market : (s.order_type == "market") ≡ true = ground arith in
        let coins : (is_bid s.side && is_coin_exchange s.exchange) ≡ true = ground arith in
        rw (market, coins) refl

  -- A purchase of coins at the market by volume that passes every check on its volume, its total and
  -- the limits raises an exception if it is the first of the run to need a budget: no order is sent,
  -- and the schedules stay as they are, so that the next run comes to it again. After an
  -- earlier purchase of the run the order is sent for the budget of that purchase, whatever its own
  -- amount is.
  pub unpriced_purchase :
      lacks_budget s ≡ true
      → let volume = ex.round_volume s.amount in
        let deal = deal_of s user ex current price in
        let total = f.mul price volume in
        f.le volume (f.of_ℕ 0) ≡ false
        → (not (in_dollars s) && f.lt total (desk.get_min_order_amount s.exchange)) ≡ false
        → validate_max_order user.max_order_krw total (in_dollars s) ≡ true
        → (gate_answer desk cal now deal total b).0 ≡ none
        → let b' = record b { halt = (gate_answer desk cal now deal total b).1 } in
          ((b.effective_budget ≡ none) → for_deal desk cal now deal b ≡ (raised, b'))
          × ((x : R)
              → b.effective_budget ≡ some x
              → for_deal desk cal now deal b
                ≡ handle_answer desk cal now deal volume
                    (desk.create_order s.user_id s.exchange s.ticker s.side x
                      (f.of_ℕ 0)
                      s.order_type
                      b.world)
                    b')
  unpriced_purchase lacks enough above below passed =
      let volume = ex.round_volume s.amount in
      let by_volume : (s.amount_type == "volume") ≡ true = ground arith in
      let bought : is_bid s.side ≡ true = ground arith in
      let sent =
        to_amount by_volume
        ∙ to_sized by_volume
        ∙ to_checked volume enough above
        ∙ to_gated volume bought below
        ∙ to_submit volume passed in
      let amounts = order_amounts_bought volume lacks in
      (
        λ e.
            sent
            ∙ submit_unpriced volume
                (amounts ∙ ap (λ o. elim o [ none ↦ none | some x ↦ some (x, f.of_ℕ 0) ]) e),
        λ x e.
            sent
            ∙ submit_priced volume x
                (amounts ∙ ap (λ o. elim o [ none ↦ none | some x ↦ some (x, f.of_ℕ 0) ]) e),
      )

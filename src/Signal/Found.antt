-- ===== src/Signal/Found.antt =====
-- The price that the search gives, and the RSI at it.
use supabot.Base.{
  Bool-cases, Option, false, if_both, inl, inr, none, some, some_inj, string_eq, subst, suc, sym,
  true, zero, ℕ, ◌≡◌, ◌⊎◌,
}
use supabot.Signal.Search.{
  Averages, Guess, ask_bounds, bid_bounds, bisect_ask, bisect_bid, close_enough, from_guess,
  guess_ask, guess_bid, judged, lower_bound, middle, near, raise_bound, search_ask, search_bid,
  search_price_for_target_rsi, unknown,
}
use supabot.Base.Float.{Float, fabs, fmax, ratio}
use supabot.Orders.Defs.{Side, ask, bid}

-- The order of floating-point numbers: what is at most `b` is not above `b`.
pub record OrdersAgree {R : Type 0} (f : Float R) : Type 0 where
  pub le-lt : (a b : R) → f.le a b ≡ true → f.lt b a ≡ false

module _ {R : Type 0} ⦃f : Float R⦄ (rsi : R → R) (target : R) where
  -- The RSI at a price that is found: on the right side of the target, or within 0.2 of it.
  abbrev pub Meets : Side → R → Type 0
  Meets bid price =
      (f.lt target (rsi price) ≡ false)
      ⊎ (f.le (fabs (f.sub (rsi price) target)) (ratio 1 5) ≡ true)
  Meets ask price =
      (f.lt (rsi price) target ≡ false)
      ⊎ (f.le (fabs (f.sub (rsi price) target)) (ratio 1 5) ≡ true)

-- The RSI is already where the order wants it.
abbrev pub IsThere : {R : Type 0} ⦃f : Float R⦄ → R → Side → R → Type 0
IsThere ⦃f⦄ target bid current_rsi = f.le current_rsi target ≡ true
IsThere ⦃f⦄ target ask current_rsi = f.le target current_rsi ≡ true

module _ {R : Type 0} ⦃f : Float R⦄ (agree : OrdersAgree f) (rsi : R → R) (target : R) where
  bisect_bid-reached :
      (n : ℕ) (low high : R)
      → f.lt target (rsi low) ≡ false
      → f.lt target (rsi (bisect_bid rsi target n low high)) ≡ false
  unfolding bisect_bid
  bisect_bid-reached zero low high h = h
  bisect_bid-reached (suc n) low high h =
      let mid = middle low high in
      elim (Bool-cases (f.le (rsi mid) target)) [
        | inl reached ↦
            rw reached (bisect_bid-reached n mid high (agree.le-lt (rsi mid) target reached))
        | inr not_yet ↦ rw not_yet (bisect_bid-reached n low mid h)
      ]

  bisect_ask-reached :
      (n : ℕ) (low high : R)
      → f.lt (rsi high) target ≡ false
      → f.lt (rsi (bisect_ask rsi target n low high)) target ≡ false
  unfolding bisect_ask
  bisect_ask-reached zero low high h = h
  bisect_ask-reached (suc n) low high h =
      let mid = middle low high in
      elim (Bool-cases (f.le target (rsi mid))) [
        | inl reached ↦
            rw reached (bisect_ask-reached n low mid (agree.le-lt target (rsi mid) reached))
        | inr not_yet ↦ rw not_yet (bisect_ask-reached n mid high h)
      ]

  search_bid-Meets :
      (current : R) (guess : Guess R) (price : R)
      → search_bid rsi target current guess ≡ some price
      → Meets rsi target bid price
  unfolding search_bid
  search_bid-Meets current guess price e =
      let limit = fmax (f.mul current (ratio 1 10_000)) (ratio 1 100_000_000) in
      let bounds = bid_bounds target current limit guess in
      let low = lower_bound rsi target limit 15 bounds.0 in
      elim (Bool-cases (f.lt target (rsi low))) [
        | inl above ↦ cc (rw above at e)
        | inr reached ↦
            subst (Meets rsi target bid) (some_inj (rw reached at e))
              (inl (bisect_bid-reached 16 low bounds.1 reached))
      ]

  search_ask-Meets :
      (current : R) (guess : Guess R) (price : R)
      → search_ask rsi target current guess ≡ some price
      → Meets rsi target ask price
  unfolding search_ask
  search_ask-Meets current guess price e =
      let limit = f.mul current (f.of_ℕ 10) in
      let bounds = ask_bounds target current limit guess in
      let high = raise_bound rsi target limit 15 bounds.1 in
      elim (Bool-cases (f.lt (rsi high) target)) [
        | inl below ↦ cc (rw below at e)
        | inr reached ↦
            subst (Meets rsi target ask) (some_inj (rw reached at e))
              (inl (bisect_ask-reached 16 bounds.0 high reached))
      ]

  -- A guess that claims to be close enough is.
  abbrev IsJudged : Guess R → Type 0
  IsJudged unknown = Unit
  IsJudged (near price found) = Unit
  IsJudged (close_enough price) = f.le (fabs (f.sub (rsi price) target)) (ratio 1 5) ≡ true

  judged-IsJudged : (price : R) → IsJudged (judged rsi target price)
  judged-IsJudged price = elim (Bool-cases (f.le (fabs (f.sub (rsi price) target)) (ratio 1 5))) [
    | inl close ↦ rw close close
    | inr far ↦ rw far tt
  ]

  guess_bid-IsJudged :
      (period current : R) (avg : Option (Averages R))
      → IsJudged (guess_bid rsi period target current avg)
  unfolding guess_bid
  guess_bid-IsJudged period current none = tt
  guess_bid-IsJudged period current (some avg) = if_both IsJudged _ _ unknown (judged-IsJudged _) tt

  guess_ask-IsJudged :
      (period current : R) (avg : Option (Averages R))
      → IsJudged (guess_ask rsi period target current avg)
  unfolding guess_ask
  guess_ask-IsJudged period current none = tt
  guess_ask-IsJudged period current (some avg) = if_both IsJudged _ _ unknown (judged-IsJudged _) tt

  bid_from_guess :
      (current : R) (guess : Guess R) (price : R)
      → IsJudged guess
      → from_guess (search_bid rsi target current) guess ≡ some price
      → Meets rsi target bid price
  bid_from_guess current unknown price judged_ok e = search_bid-Meets current unknown price e
  bid_from_guess current (near p found) price judged_ok e =
      search_bid-Meets current (near p found) price e
  bid_from_guess current (close_enough p) price judged_ok e =
      subst (Meets rsi target bid) (some_inj e) (inr judged_ok)

  ask_from_guess :
      (current : R) (guess : Guess R) (price : R)
      → IsJudged guess
      → from_guess (search_ask rsi target current) guess ≡ some price
      → Meets rsi target ask price
  ask_from_guess current unknown price judged_ok e = search_ask-Meets current unknown price e
  ask_from_guess current (near p found) price judged_ok e =
      search_ask-Meets current (near p found) price e
  ask_from_guess current (close_enough p) price judged_ok e =
      subst (Meets rsi target ask) (some_inj e) (inr judged_ok)

  -- A price that the search gives is the current one, if the RSI is already at the target or past it;
  -- or the RSI after a close at that price is not above the target of a purchase, not below the target
  -- of a sale, or within 0.2 of it. Of the RSI and the averages nothing is assumed, and of the
  -- numbers that what is at most another is not above it.
  pub search_price_for_target_rsi-Meets :
      (period : R) (avg : Option (Averages R)) (side : Side) (current current_rsi price : R)
      → search_price_for_target_rsi rsi period avg side current current_rsi target ≡ some price
      → (IsThere target side current_rsi × (price ≡ current)) ⊎ Meets rsi target side price
  unfolding search_price_for_target_rsi
  search_price_for_target_rsi-Meets period avg bid current current_rsi price e =
      elim (Bool-cases (f.le current_rsi target)) [
        | inl there ↦ inl (there, sym (some_inj (rw there at e)))
        | inr above ↦ inr (
            bid_from_guess current (guess_bid rsi period target current avg) price
              (guess_bid-IsJudged period current avg) (rw above at e))
      ]
  search_price_for_target_rsi-Meets period avg ask current current_rsi price e =
      elim (Bool-cases (f.le target current_rsi)) [
        | inl there ↦ inl (there, sym (some_inj (rw there at e)))
        | inr below ↦ inr (
            ask_from_guess current (guess_ask rsi period target current avg) price
              (guess_ask-IsJudged period current avg) (rw below at e))
      ]

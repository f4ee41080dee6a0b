-- ===== src/Signal/Examples.antt =====
-- The theorems on the signal engine at concrete numbers: the RSI after a close is the close itself.
use supabot.Base.{
  List, Option, [], any, arith, false, nat_eq, none, refl, some, string_eq, true, ℕ, ◌==◌, ◌∷◌, ◌≡◌,
  ◌⊎◌,
}
use supabot.Signal.Search.{search_price_for_target_rsi}
use supabot.Signal.Found.{IsThere, Meets, OrdersAgree, search_price_for_target_rsi-Meets}
use supabot.Signal.Snooze.{Key, is_snoozed, key_eq}
use supabot.Signal.Watch.{
  AlertEvent, Indicators, Taste, analyze_single_ticker, run_events, scanned, snoozed, started,
}
use supabot.Signal.Quiet.{alert_once}
use supabot.Base.Int.{pos, ℤ, ◌*ℤ◌, ◌+ℤ◌, ◌-ℤ◌}
use supabot.Base.Float.{int_float}
use supabot.Orders.Defs.{bid}

int-OrdersAgree : OrdersAgree int_float
int-OrdersAgree = record { le-lt = λ a b h. ground arith }

found_at_30 :
    search_price_for_target_rsi (λ close. close) (pos 14) none bid (pos 100) (pos 100) (pos 30)
    ≡ some (pos 30)
unfolding search_price_for_target_rsi ◌+ℤ◌ ◌-ℤ◌ ◌*ℤ◌
found_at_30 = refl

search_price_for_target_rsi-Meets_example :
    (IsThere (pos 30) bid (pos 100) × (pos 30 ≡ pos 100))
    ⊎ Meets (λ close. close) (pos 30) bid (pos 30)
search_price_for_target_rsi-Meets_example =
    search_price_for_target_rsi-Meets int-OrdersAgree (λ close. close) (pos 30) (pos 14) none bid
      (pos 100) (pos 100) (pos 30) found_at_30

abbrev btc : Key
btc = ("ann", "upbit", "KRW-BTC")

abbrev eth : Key
eth = ("ann", "upbit", "KRW-ETH")

abbrev taste : Taste ℤ
taste = record {
  signal_rsi_threshold = pos 30;
  signal_bb_alert = false;
  signal_combine_mode = "or";
  is_quiet = false;
}

abbrev oversold : Option (Indicators ℤ)
oversold = some (record { rsi = pos 25; lower_band = pos 90; current_price = pos 95 })

abbrev events : List (ℕ × AlertEvent ℤ)
events =
    (110, started)
    ∷ (111, scanned btc taste oversold true 500)
    ∷ (112, snoozed eth "1h" 500)
    ∷ (499, scanned btc taste oversold true 500)
    ∷ []

alert_once_example :
    any
      (λ k. k == btc)
      (run_events events (analyze_single_ticker btc taste oversold true 100 500 []).1).0
    ≡ false
alert_once_example =
    alert_once btc taste oversold true 100 500 [] events
      (unfold analyze_single_ticker is_snoozed in refl)
      (omega arith, (omega arith, ((omega arith, refl), (omega arith, tt))))

-- After midnight the next alert comes.
alert_again :
    run_events
      ((501, started) ∷ (501, scanned btc taste oversold true 900) ∷ [])
      (analyze_single_ticker btc taste oversold true 100 500 []).1
    ≡ (btc ∷ [], (btc, 900) ∷ [])
unfolding run_events
alert_again = refl

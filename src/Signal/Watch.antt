-- ===== src/Signal/Watch.antt =====
-- The scan of the watch lists, `analyze_watchlist` of src/core/signal_engine.py. The indicators are
-- those of a library, and a parameter. The tickers are scanned one after the other.
use supabot.Base.{
  Bool, List, Option, String, [], false, if◌then◌else◌, nat_eq, none, not, some, string_eq, true, ℕ,
  ◌&&◌, ◌++◌, ◌||◌, ◌∷◌,
}
use supabot.Signal.Snooze.{Key, Snoozes, clean_expired_snoozes, is_snoozed, key_eq, set_snooze}
use supabot.Base.Float.{Float}
use supabot.Base.Text.{codes, lower, same_codes}

-- The preferences that the scan reads.
pub record Taste (R : Type 0) : Type 0 where
  pub signal_rsi_threshold : R
  pub signal_bb_alert : Bool
  pub signal_combine_mode : String
  pub is_quiet : Bool

pub record Indicators (R : Type 0) : Type 0 where
  pub rsi : R
  pub lower_band : R
  pub current_price : R

-- What happens to the snoozes: a scan starts, a ticker is scanned, or a user snoozes one.
pub data AlertEvent (R : Type 0) : Type 0 where
  started : AlertEvent R
  scanned : Key → Taste R → Option (Indicators R) → Bool → ℕ → AlertEvent R
  snoozed : Key → String → ℕ → AlertEvent R

module _ {R : Type 0} ⦃f : Float R⦄ where
  abbrev pub signal_fired : Taste R → Indicators R → Bool
  signal_fired t i =
      let by_rsi = f.le i.rsi t.signal_rsi_threshold in
      let by_band = t.signal_bb_alert && f.lt i.current_price i.lower_band in
      if same_codes (lower t.signal_combine_mode) (codes "and")
      then by_rsi && by_band
      else by_rsi || by_band

  -- Whether an alert was sent, and the snoozes. A message that cannot be sent raises, and
  -- then nothing is snoozed.
  unfoldable pub analyze_single_ticker :
      Key → Taste R → Option (Indicators R) → Bool → ℕ → ℕ → Snoozes → Bool × Snoozes
  unfolding set_snooze is_snoozed
  analyze_single_ticker key t none delivered now midnight d = (false, d)
  analyze_single_ticker key t (some i) delivered now midnight d =
      if not (is_snoozed key now d) && signal_fired t i && not t.is_quiet && delivered
      then (true, (set_snooze key "day" now midnight d).1)
      else (false, d)

  -- The alerts of a step, and the snoozes after it.
  unfoldable pub happen : ℕ → AlertEvent R → Snoozes → List Key × Snoozes
  unfolding analyze_single_ticker clean_expired_snoozes set_snooze
  happen now started d = ([], clean_expired_snoozes now d)
  happen now (scanned key t i delivered midnight) d =
      let (alerted, d') = analyze_single_ticker key t i delivered now midnight d in
      (if alerted then key ∷ [] else [], d')
  happen now (snoozed key mode midnight) d = ([], (set_snooze key mode now midnight d).1)

  -- Events with their times, and all their alerts.
  unfoldable pub run_events : List (ℕ × AlertEvent R) → Snoozes → List Key × Snoozes
  unfolding happen
  run_events [] d = ([], d)
  run_events ((now, e) ∷ events) d =
      let (alerts, d') = happen now e d in
      let (more, d'') = run_events events d' in (alerts ++ more, d'')

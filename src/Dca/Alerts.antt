-- ===== src/Dca/Alerts.antt =====
-- The daily check of the cash, `check_daily_cash_alerts` of src/core/dca_manager.py: which reports are
-- told to a user, and when. A day is its text; a time is a number of microseconds.
use supabot.Base.{
  Bool, List, Option, String, [], false, filter, if◌then◌else◌, ltb, nat_eq, none, not, some,
  string_eq, true, ℕ, ◌&&◌, ◌-◌, ◌==◌, ◌∷◌,
}
use supabot.Dca.Cash.{CashReport, CashStatus, enough_cash, short_next, warn_weekly}

-- `_daily_cash_alert_sent` by user and exchange, and `_cash_last_checked_ts` by user.
pub record CashMemory : Type 0 where
  pub alert_sent : String → String → Option String
  pub last_checked : String → ℕ

-- 3,600 seconds
abbrev pub cash_check_interval : ℕ
cash_check_interval = 3_600_000_000

abbrev pub is_low : CashStatus → Bool
is_low short_next = true
is_low warn_weekly = true
is_low enough_cash = false

abbrev pub is_sent_on : String → Option String → Bool
is_sent_on day none = false
is_sent_on day (some d) = d == day

-- A new value for one user and one exchange.
abbrev pub remember_alert :
    String → String → String → (String → String → Option String) → String → String → Option String
remember_alert user ex day sent u e = if user == u && ex == e then some day else sent u e

module _ {R : Type 0} where
  abbrev pub is_due_alert :
      String → String → (String → String → Option String) → CashReport R → Bool
  is_due_alert user day sent r = is_low r.status && not (is_sent_on day (sent user r.exchange))

  abbrev pub remember_all :
      String
      → String
      → List (CashReport R)
      → (String → String → Option String)
      → String
      → String
      → Option String
  remember_all user day [] sent = sent
  remember_all user day (r ∷ rest) sent =
      remember_all user day rest (remember_alert user r.exchange day sent)

  -- One user: the reports of the message, if there is one, and the memory. `is_forced` says that the
  -- time was given, so that the interval between two checks does not count.
  unfoldable pub check_user :
      String
      → String
      → ℕ
      → Bool
      → List (CashReport R)
      → CashMemory
      → List (CashReport R) × CashMemory
  check_user user day now is_forced reports m =
      let due = filter (is_due_alert user day m.alert_sent) reports in
      if not is_forced && ltb (now - m.last_checked user) cash_check_interval then ([], m) else (
        due,
        record {
          alert_sent = remember_all user day due m.alert_sent;
          last_checked = λ u. if user == u then now else m.last_checked u;
        },
      )

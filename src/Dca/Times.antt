-- ===== src/Dca/Times.antt =====
-- `compute_next_run_at` of src/core/dca_manager.py. The dates and times of the standard library are a
-- parameter, `Calendar`; a time is one of Korea.
use supabot.Base.{
  Bool, List, Option, String, [], any, if◌then◌else◌, max, min, nat_beq, none, not, some, string_eq,
  suc, zero, ℕ, ◌%◌, ◌&&◌, ◌+◌, ◌==◌, ◌||◌, ◌∷◌,
}
use supabot.Sync.Defs.{Answer, got, threw}

-- `D` is the type of a date with a time.
pub record Calendar (R D : Type 0) : Type 0 where
  -- `datetime.fromtimestamp(_, tz=KST)` and `.timestamp()`
  pub of_timestamp : R → D
  pub timestamp : D → R
  -- `.replace(hour=, minute=, second=0, microsecond=0)`
  pub at_time : ℕ → ℕ → D → D
  -- `.replace(day=)` and `.replace(year=, month=, day=)`
  pub on_day : ℕ → D → D
  pub on_date : ℕ → ℕ → ℕ → D → D
  -- `+ timedelta(days=)`
  pub add_days : ℕ → D → D
  pub weekday : D → ℕ
  pub year : D → ℕ
  pub month : D → ℕ
  -- `calendar.monthrange(year, month)[1]`
  pub last_day : ℕ → ℕ → ℕ
  -- `<=`
  pub is_not_after : D → D → Bool

-- The fields of a schedule that say when it runs. `exec_time` is the text HH:MM by its two numbers,
-- and an empty text is `none`.
pub record Timing : Type 0 where
  pub frequency : String
  pub exec_time : Option (ℕ × ℕ)
  pub days_of_week : Option (List ℕ)
  pub day_of_month : Option ℕ

abbrev pub default_dca_exec_time : ℕ × ℕ
default_dca_exec_time = (9, 5)

abbrev pub clock_of : Option (ℕ × ℕ) → ℕ × ℕ
clock_of none = default_dca_exec_time
clock_of (some hm) = hm

-- `days_of_week or [0]`, and the test of the days modulo 7.
abbrev pub is_target_day : Option (List ℕ) → ℕ → Bool
is_target_day none day = nat_beq 0 day
is_target_day (some []) day = nat_beq 0 day
is_target_day (some (d ∷ ds)) day = any (λ e. nat_beq (e % 7) day) (d ∷ ds)

-- `max(1, min(int(day_of_month or 1), 31))`
abbrev pub month_day : Option ℕ → ℕ
month_day none = 1
month_day (some d) = max 1 (min (if nat_beq d 0 then 1 else d) 31)

module _ {R D : Type 0} where
  -- A candidate that is taken only after now.
  abbrev pub is_past : Calendar R D → Bool → D → D → Bool
  is_past cal after candidate now = after || cal.is_not_after candidate now

  abbrev pub next_daily : Calendar R D → ℕ → ℕ → Bool → D → R
  next_daily cal hour minute after now =
      let candidate = cal.at_time hour minute now in
      cal.timestamp
        (if is_past cal after candidate now then cal.add_days 1 candidate else candidate)

  -- The offsets from `offset` on, `n` of them.
  abbrev pub next_weekly_from : Calendar R D → Option (List ℕ) → ℕ → ℕ → Bool → D → ℕ → ℕ → Option R
  next_weekly_from cal days hour minute after now offset zero = none
  next_weekly_from cal days hour minute after now offset (suc n) =
      let rest = next_weekly_from cal days hour minute after now (offset + 1) n in
      let day = cal.add_days offset now in
      let candidate = cal.at_time hour minute day in
      if not (is_target_day days (cal.weekday day))
      then rest
      else (if nat_beq offset 0 && is_past cal after candidate now
          then rest
          else some (cal.timestamp candidate))

  -- The first of the next eight days, or else the day a week from now.
  abbrev pub next_weekly : Calendar R D → Option (List ℕ) → ℕ → ℕ → Bool → D → R
  next_weekly cal days hour minute after now =
      elim (next_weekly_from cal days hour minute after now 0 8) [
        | some t ↦ t
        | none ↦ cal.timestamp (cal.at_time hour minute (cal.add_days 7 now))
      ]

  -- The same day of the next month, or its last one.
  abbrev pub in_next_month : Calendar R D → ℕ → D → D → D
  in_next_month cal dom now candidate =
      let is_last = nat_beq (cal.month now) 12 in
      let y : ℕ = (if is_last then cal.year now + 1 else cal.year now) in
      let m : ℕ = (if is_last then 1 else cal.month now + 1) in
      cal.on_date y m (min dom (cal.last_day y m)) candidate

  abbrev pub next_monthly : Calendar R D → ℕ → ℕ → ℕ → Bool → D → R
  next_monthly cal dom hour minute after now =
      let last = cal.last_day (cal.year now) (cal.month now) in
      let candidate = cal.at_time hour minute (cal.on_day (min dom last) now) in
      cal.timestamp
        (if is_past cal after candidate now then in_next_month cal dom now candidate else candidate)

  -- An unknown frequency raises.
  unfoldable pub compute_next_run_at : Calendar R D → Timing → R → Bool → Answer R
  compute_next_run_at cal t now_ts after =
      let now = cal.of_timestamp now_ts in
      let (hour, minute) = clock_of t.exec_time in
      if t.frequency == "daily"
      then got (next_daily cal hour minute after now)
      else (if t.frequency == "weekly" || t.frequency == "days"
          then got (next_weekly cal t.days_of_week hour minute after now)
          else (if t.frequency == "monthly"
              then got (next_monthly cal (month_day t.day_of_month) hour minute after now)
              else threw))

-- ===== src/Dca/Later.antt =====
-- The result of `compute_next_run_at` and the time that it is asked at.
use supabot.Base.{
  Bool, Bool-cases, List, Option, Option-cases, arith, false, if◌then◌else◌, inl, inr, min, nat_beq,
  refl, some, string_eq, subst, suc, true, zero, ℕ, ◌&&◌, ◌*◌, ◌+◌, ◌<◌, ◌==◌, ◌||◌, ◌≡◌,
}
use supabot.Sync.Defs.{got}
use supabot.Dca.Times.{
  Calendar, Timing, clock_of, compute_next_run_at, in_next_month, is_past, is_target_day, month_day,
  next_daily, next_monthly, next_weekly, next_weekly_from,
}

-- What the dates of the standard library promise: the day after is later at any time of day, a later
-- day is later at any time of day, and so is any day of a later month.
pub record IsOrdered {R D : Type 0} (cal : Calendar R D) : Type 0 where
  pub day_after :
      (h m : ℕ) (now : D) → cal.is_not_after (cal.add_days 1 (cal.at_time h m now)) now ≡ false
  pub later_day :
      (h m n : ℕ) (now : D)
      → cal.is_not_after (cal.at_time h m (cal.add_days (suc n) now)) now ≡ false
  pub later_month :
      (y m d : ℕ) (candidate now : D)
      → cal.year now * 12 + cal.month now < y * 12 + m
      → cal.is_not_after (cal.on_date y m d candidate) now ≡ false

module _ {R D : Type 0} (cal : Calendar R D) where
  -- The time of a date after `now`.
  abbrev pub IsLater : D → R → Type 0
  IsLater now t = (d : D) × (t ≡ cal.timestamp d) × (cal.is_not_after d now ≡ false)

  pick-IsLater :
      (past : Bool) (x y now : D)
      → cal.is_not_after x now ≡ false
      → (past ≡ false → cal.is_not_after y now ≡ false)
      → IsLater now (cal.timestamp (if past then x else y))
  pick-IsLater true x y now later ahead = (x, refl, later)
  pick-IsLater false x y now later ahead = (y, refl, ahead refl)

  next_daily-IsLater :
      IsOrdered cal
      → (h m : ℕ) (after : Bool) (now : D) → IsLater now (next_daily cal h m after now)
  next_daily-IsLater ord h m after now =
      let candidate = cal.at_time h m now in
      pick-IsLater (is_past cal after candidate now) (cal.add_days 1 candidate) candidate now
        (ord.day_after h m now) (λ e. ground arith)

  weekly_ahead :
      IsOrdered cal
      → (h m : ℕ) (after : Bool) (now : D) (offset : ℕ)
      → (nat_beq offset 0 && is_past cal after (cal.at_time h m (cal.add_days offset now)) now)
        ≡ false
      → cal.is_not_after (cal.at_time h m (cal.add_days offset now)) now ≡ false
  weekly_ahead ord h m after now zero taken = ground arith
  weekly_ahead ord h m after now (suc n) taken = ord.later_day h m n now

  next_weekly_from-IsLater :
      IsOrdered cal
      → (days : Option (List ℕ)) (h m : ℕ) (after : Bool) (now : D) (offset n : ℕ) (t : R)
      → next_weekly_from cal days h m after now offset n ≡ some t
      → IsLater now t
  next_weekly_from-IsLater ord days h m after now offset zero t e = cc
  next_weekly_from-IsLater ord days h m after now offset (suc n) t e =
      let day = cal.add_days offset now in
      let rest = next_weekly_from-IsLater ord days h m after now (offset + 1) n t in
      let ahead = weekly_ahead ord h m after now in
      elim (Bool-cases (is_target_day days (cal.weekday day))) [
        | inr other ↦ rest (ground arith)
        | inl target ↦
            elim (Bool-cases (nat_beq offset 0 && is_past cal after (cal.at_time h m day) now)) [
              | inl skipped ↦ rest (ground arith)
              | inr taken ↦ (cal.at_time h m day, ground arith, ahead offset taken)
            ]
      ]

  next_monthly-IsLater :
      IsOrdered cal
      → (dom h m : ℕ) (after : Bool) (now : D) → IsLater now (next_monthly cal dom h m after now)
  next_monthly-IsLater ord dom h m after now =
      let candidate =
        cal.at_time h m (cal.on_day (min dom (cal.last_day (cal.year now) (cal.month now))) now) in
      pick-IsLater (is_past cal after candidate now) (in_next_month cal dom now candidate) candidate
        now
        (elim (Bool-cases (nat_beq (cal.month now) 12)) [
          | inl last ↦
              rw (in_next_month, last)
                (ord.later_month (cal.year now + 1) 1 _ candidate now (ground arith))
          | inr before ↦
              rw (in_next_month, before)
                (ord.later_month (cal.year now) (cal.month now + 1) _ candidate now (omega arith))
        ])
        (λ e. ground arith)

  next_weekly-IsLater :
      IsOrdered cal
      → (days : Option (List ℕ)) (h m : ℕ) (after : Bool) (now : D)
      → IsLater now (next_weekly cal days h m after now)
  next_weekly-IsLater ord days h m after now =
      elim (Option-cases (next_weekly_from cal days h m after now 0 8)) [
        | inl e ↦ rw (next_weekly, e) (_, refl, ord.later_day h m 6 now)
        | inr (t, e) ↦ rw (next_weekly, e) (next_weekly_from-IsLater ord days h m after now 0 8 t e)
      ]

  -- The time that is computed for the next run is that of a date after now, for every frequency; the
  -- dates of the standard library are assumed to be ordered as days and months are.
  pub compute_next_run_at-IsLater :
      IsOrdered cal
      → (t : Timing) (now : R) (after : Bool) (next : R)
      → compute_next_run_at cal t now after ≡ got next
      → IsLater (cal.of_timestamp now) next
  unfolding compute_next_run_at
  compute_next_run_at-IsLater ord t now after next e =
      let d = cal.of_timestamp now in
      let (h, m) = clock_of t.exec_time in
      elim (Bool-cases (t.frequency == "daily")) [
        | inl e1 ↦ subst (IsLater d) (ground arith) (next_daily-IsLater ord h m after d)
        | inr e1 ↦ elim (Bool-cases (t.frequency == "weekly" || t.frequency == "days")) [
          | inl e2 ↦
              subst (IsLater d) (ground arith) (next_weekly-IsLater ord t.days_of_week h m after d)
          | inr e2 ↦ elim (Bool-cases (t.frequency == "monthly")) [
            | inl e3 ↦
                subst (IsLater d) (ground arith)
                  (next_monthly-IsLater ord (month_day t.day_of_month) h m after d)
            | inr e3 ↦ cc (rw (e1, e2, e3) at e)
          ]
        ]
      ]

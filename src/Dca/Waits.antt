-- ===== src/Dca/Waits.antt =====
-- The ways in which a schedule of src/core/dca_manager.py is left for another time.
use supabot.Base.{
  Bool-cases, if_both, if◌then◌else◌, inl, inr, leb, nat_eq, refl, some, string_eq, true, ◌+◌, ◌==◌,
  ◌≡◌,
}
use supabot.Dca.Outcome.{
  Ends, IsPostponed, Outcome, Outcome-same, Same, deferred-Outcome, skipped-Outcome,
}
use supabot.Dca.Due.{
  DcaNote, Run, closed, count_fails, deferred, failed_again, held_back, holiday_postponed,
  holiday_skipped, marked, max_consecutive_fails, noted, opening,
}
use supabot.Dca.Schedules.{Schedule, first_with}
use supabot.Dca.Times.{Calendar}
use supabot.Dca.Lifetime.{is_supported}
use supabot.Base.Float.{Float}
use supabot.Sync.Defs.{Market}

module _ {R W D : Type 0} ⦃f : Float R⦄ (cal : Calendar R D) (now : R) (s m : Schedule R)
    (b : Run R W) (found : first_with s.id b.dca.schedules ≡ some m)
    (supported : is_supported m.timing ≡ true) (A : Type 0) where
  pub held_back-Outcome :
      (b' : Run R W) → Same b b' → Ends (Outcome A cal now s m b) (held_back cal now s b')
  unfolding held_back
  held_back-Outcome b' same =
      Outcome-same (held_back cal now s b').1
        (deferred-Outcome cal now s m b found supported A _ b' same (inl refl)) (refl, (refl, refl))

  pub failed_again-Outcome :
      (note : DcaNote) (b' : Run R W)
      → Same b b'
      → Ends (Outcome A cal now s m b) (failed_again cal now s note b')
  unfolding failed_again
  failed_again-Outcome note b' same =
      elim (Bool-cases (leb max_consecutive_fails (b'.dca.fail_counts s.id + 1))) [
        | inl third ↦ rw third (
            skipped-Outcome cal now s m b found supported A (some note) (count_fails s.id 0 b')
              same)
        | inr fewer ↦ rw fewer (
            deferred-Outcome cal now s m b found supported A _
              (count_fails s.id (b'.dca.fail_counts s.id + 1) b') same (inr (inl refl)))
      ]

  opening-IsPostponed : (ex : Market R W) (w : W) → IsPostponed now (opening cal now ex s.ticker w)
  opening-IsPostponed ex w = elim (Bool-cases (f.le (ex.next_check_timestamp s.ticker w) now)) [
    | inl past ↦ rw past (inl refl)
    | inr later ↦ rw later (inr (inr later))
  ]

  postponed_until_open :
      (ex : Market R W) (b' : Run R W)
      → Same b b'
      → let b'' = deferred s.id (opening cal now ex s.ticker b'.world) b' in
        Outcome A cal now s m b 0 (
          if s.is_carryover
          then b''
          else noted s.user_id holiday_postponed (marked s "holiday" b''))
  postponed_until_open ex b' same =
      let b'' = deferred s.id (opening cal now ex s.ticker b'.world) b' in
      let ended =
        deferred-Outcome cal now s m b found supported A _ b' same
          (opening-IsPostponed ex b'.world) in
      let told = noted s.user_id holiday_postponed (marked s "holiday" b'') in
      if_both (Outcome A cal now s m b 0) s.is_carryover b'' told ended
        (Outcome-same told ended (refl, (refl, refl)))

  pub closed-Outcome :
      (ex : Market R W) (b' : Run R W)
      → Same b b'
      → Ends (Outcome A cal now s m b) (closed cal now s ex b')
  unfolding closed
  closed-Outcome ex b' same = elim (Bool-cases (s.carryover_mode == "skip")) [
    | inl skip ↦
        rw skip (skipped-Outcome cal now s m b found supported A (some holiday_skipped) b' same)
    | inr other ↦ elim (Bool-cases (s.carryover_mode == "delay_20m")) [
      | inl delay ↦
          rw (other, delay) (deferred-Outcome cal now s m b found supported A _ b' same (inl refl))
      | inr next ↦ rw (other, next) (postponed_until_open ex b' same)
    ]
  ]

-- ===== src/Dca/Lifetime.antt =====
-- How often a schedule runs.
use supabot.Base.{
  Bool, Bool-cases, List, Option-cases, String, [], arith, false, inl, inr, length, ltb, ltb→lt,
  none, refl, some, string_eq, sym, true, ℕ, ◌+◌, ◌<◌, ◌==◌, ◌||◌, ◌∙◌, ◌∷◌, ◌≡◌, ◌≤◌, ◌⊎◌,
}
use supabot.Base.Int.{pos}
use supabot.Sync.Defs.{got}
use supabot.Dca.Times.{Calendar, Timing, compute_next_run_at}
use supabot.Dca.Schedules.{Dca, Schedule, first_with, get_schedule}
use supabot.Dca.Manager.{advance_schedule, counted, is_exhausted}
use supabot.Dca.Lookup.{first_with-change, first_with-filter, first_with-id}

-- The frequencies that the program knows.
abbrev pub is_supported : Timing → Bool
is_supported t =
    t.frequency == "daily"
    || t.frequency == "weekly"
    || t.frequency == "days"
    || t.frequency == "monthly"

pub get_schedule_lem :
    {R : Type 0} (id : String) (d : Dca R) → get_schedule id none d ≡ first_with id d.schedules
unfolding get_schedule
get_schedule_lem id d = elim (Option-cases (first_with id d.schedules)) [
  | inl e ↦ rw (get_schedule, e) refl
  | inr (s, e) ↦ rw (get_schedule, e) refl
]

module _ {R D : Type 0} where
  pub compute_next_run_at_total :
      (cal : Calendar R D) (t : Timing) (now : R) (after : Bool)
      → is_supported t ≡ true
      → (next : R) × (compute_next_run_at cal t now after ≡ got next)
  unfolding compute_next_run_at
  compute_next_run_at_total cal t now after h = elim (Bool-cases (t.frequency == "daily")) [
    | inl e ↦ rw e (_, refl)
    | inr e1 ↦ elim (Bool-cases (t.frequency == "weekly" || t.frequency == "days")) [
      | inl e2 ↦ rw (e1, e2) (_, refl)
      | inr e2 ↦
          let e3 : (t.frequency == "monthly") ≡ true = ground arith in rw (e1, e2, e3) (_, refl)
    ]
  ]

  -- The manager after the schedule was run at each of the times.
  abbrev pub run_at : Calendar R D → String → List R → Dca R → Dca R
  run_at cal id [] d = d
  run_at cal id (now ∷ times) d = run_at cal id times (advance_schedule cal id now true d).1

  advance_goes_on :
      (cal : Calendar R D) (id : String) (now : R) (d : Dca R) (s : Schedule R) (most : ℕ)
      → first_with id d.schedules ≡ some s
      → s.max_runs ≡ some (pos most)
      → is_supported s.timing ≡ true
      → s.run_count + 1 < most
      → (next : R) × (first_with id (advance_schedule cal id now true d).1.schedules
          ≡ some (record (counted true now s) { next_run_at = next }))
  unfolding advance_schedule
  advance_goes_on cal id now d s most h lim sup more =
      let (next, e) = compute_next_run_at_total cal s.timing now true sup in
      let is_exhausted_false : is_exhausted (counted true now s) ≡ false =
        rw lim (ground (arith, more)) in
      (
        next,
        rw (h, is_exhausted_false, e)
            (first_with-change id (λ x. record (counted true now s) { next_run_at = next })
              d.schedules s h (first_with-id id d.schedules s h)),
      )

  advance_ends :
      (cal : Calendar R D) (id : String) (now : R) (d : Dca R) (s : Schedule R) (most : ℕ)
      → first_with id d.schedules ≡ some s
      → s.max_runs ≡ some (pos most)
      → most ≤ s.run_count + 1
      → first_with id (advance_schedule cal id now true d).1.schedules ≡ none
  unfolding advance_schedule
  advance_ends cal id now d s most h lim last =
      rw (h, lim) (ground (arith, first_with-filter id d.schedules))

  run_at_gone :
      (cal : Calendar R D) (id : String) (times : List R) (d : Dca R)
      → first_with id d.schedules ≡ none
      → run_at cal id times d ≡ d
  unfolding advance_schedule
  run_at_gone cal id [] d e = refl
  run_at_gone cal id (now ∷ times) d e = rw e (run_at_gone cal id times d e)

  -- A schedule that is to run `most` times, of a frequency that the program knows: as long as it ran
  -- less often it stays, with its runs counted; and with the run that makes `most` it is gone.
  pub runs_out :
      (cal : Calendar R D) (id : String) (times : List R) (d : Dca R) (s : Schedule R) (most : ℕ)
      → get_schedule id none d ≡ some s
      → s.max_runs ≡ some (pos most)
      → is_supported s.timing ≡ true
      → s.run_count + length times ≤ most
      → s.run_count < most
      → ((s.run_count + length times < most)
          × ((s' : Schedule R) × (get_schedule id none (run_at cal id times d) ≡ some s')
              × (s'.run_count ≡ s.run_count + length times)))
        ⊎ ((s.run_count + length times ≡ most)
            × (get_schedule id none (run_at cal id times d) ≡ none))
  runs_out cal id [] d s most h lim sup total left = inl (omega arith, (s, h, omega arith))
  runs_out cal id (now ∷ times) d s most h lim sup total left =
      let found : first_with id d.schedules ≡ some s = sym (get_schedule_lem id d) ∙ h in
      elim (Bool-cases (ltb (s.run_count + 1) most)) [
        | inl more ↦
            let (next, e) = advance_goes_on cal id now d s most found lim sup (ltb→lt _ _ more) in
            let d' = (advance_schedule cal id now true d).1 in
            let s' = record (counted true now s) { next_run_at = next } in
            elim (runs_out cal id times d' s' most (get_schedule_lem id d' ∙ e) lim sup
              (omega arith) (ltb→lt _ _ more)) [
                | inl (below, (s'', e'', runs)) ↦ inl (omega arith, (s'', e'', omega arith))
                | inr (all_run, e'') ↦ inr (omega arith, e'')
              ]
        | inr last ↦
            let d' = (advance_schedule cal id now true d).1 in
            let gone = advance_ends cal id now d s most found lim (ground arith) in
            inr
              (ground arith, rw (run_at_gone cal id times d' gone) (get_schedule_lem id d' ∙ gone))
      ]

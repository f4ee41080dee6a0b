-- ===== src/Dca/Manager.antt =====
-- The methods of `DcaManager` in src/core/dca_manager.py that change the schedules. A method gives its
-- result, the new state and what it asks of the database.
use supabot.Base.{
  Bool, List, Option, String, [], false, filter, if◌then◌else◌, length, map, nat_eq, none, not,
  some, string_eq, true, ℕ, ◌++◌, ◌+◌, ◌==◌, ◌∷◌,
}
use supabot.Base.Int.{leb_ℤ, pos}
use supabot.Orders.Defs.{at}
use supabot.Sync.Defs.{Answer, got, threw}
use supabot.Dca.Times.{Calendar, compute_next_run_at}
use supabot.Dca.Schedules.{
  Dca, NewSchedule, Request, Schedule, change_first, completed, delete, first_with,
  get_next_group_no, get_schedule, schedule_changed, schedule_of, upsert,
}

module _ {R : Type 0} where
  -- The schedules without those of the id, and its count of failures dropped.
  abbrev pub without : String → Dca R → Dca R
  without id d = record {
    schedules = filter (λ s. not (s.id == id)) d.schedules;
    fail_counts = at d.fail_counts id 0;
  }

  unfoldable pub remove_schedule : String → Option String → Dca R → Bool × Dca R × List (Request R)
  unfolding get_schedule
  remove_schedule id user d = elim (get_schedule id user d) [
    | none ↦ (false, d, [])
    | some s ↦ (true, without id d, delete id ∷ schedule_changed ∷ [])
  ]

  unfoldable pub defer_schedule : String → R → Dca R → Bool × Dca R × List (Request R)
  defer_schedule id next d = elim (first_with id d.schedules) [
    | none ↦ (false, d, [])
    | some s ↦
        let change : Schedule R → Schedule R = λ x. record x { next_run_at = next } in
        (true, record d { schedules = change_first id change d.schedules }, upsert (change s) ∷ [])
  ]

  -- One more run, if it counts.
  abbrev pub counted : Bool → R → Schedule R → Schedule R
  counted false now s = s
  counted true now s = record s { run_count = s.run_count + 1; last_run_at = some now }

  abbrev pub is_exhausted : Schedule R → Bool
  is_exhausted s = elim s.max_runs [ none ↦ false | some most ↦ leb_ℤ most (pos s.run_count) ]

  -- The schedule goes on, at the time that was computed; where that raised, its runs are counted and
  -- nothing is written.
  abbrev pub go_on :
      String
      → Schedule R
      → Dca R
      → Answer R
      → Answer (Option (Schedule R)) × Dca R × List (Request R)
  go_on id s d (got next) =
      let s' = record s { next_run_at = next } in
      (
        got (some s'),
        record d { schedules = change_first id (λ _. s') d.schedules },
        upsert s' ∷ [],
      )
  go_on id s d threw = (threw, record d { schedules = change_first id (λ _. s) d.schedules }, [])

  abbrev pub advance_found :
      {D : Type 0}
      → Calendar R D
      → String
      → R
      → Bool
      → Dca R
      → Option (Schedule R)
      → Answer (Option (Schedule R)) × Dca R × List (Request R)
  unfolding compute_next_run_at
  advance_found cal id now increment d none = (got none, d, [])
  advance_found cal id now increment d (some s) =
      let s' = counted increment now s in
      if is_exhausted s'
      then (got (some (record s' { status = completed })), without id d, delete id ∷ [])
      else go_on id s' d (compute_next_run_at cal s'.timing now true)

  unfoldable pub advance_schedule :
      {D : Type 0}
      → Calendar R D
      → String
      → R
      → Bool
      → Dca R
      → Answer (Option (Schedule R)) × Dca R × List (Request R)
  unfolding compute_next_run_at
  advance_schedule cal id now increment d =
      advance_found cal id now increment d (first_with id d.schedules)

  abbrev pub forget : List (Schedule R) → (String → ℕ) → String → ℕ
  forget [] counts = counts
  forget (s ∷ rest) counts = forget rest (at counts s.id 0)

  unfoldable pub clear_user_schedules : String → Dca R → ℕ × Dca R × List (Request R)
  clear_user_schedules user d =
      let gone = filter (λ s. s.user_id == user) d.schedules in
      (
        length gone,
        record {
          schedules = filter (λ s. not (s.user_id == user)) d.schedules;
          fail_counts = forget gone d.fail_counts;
        },
        map (λ s. delete s.id) gone,
      )

  -- The group number that was asked for, or the next one; the order book is not asked here.
  abbrev pub group_for : NewSchedule R → List (Option ℕ) → Dca R → ℕ
  unfolding get_next_group_no
  group_for n trades d = elim n.group_no [
    | some number ↦ number
    | none ↦ get_next_group_no n.user_id none trades d
  ]

  -- The id is made of a random number.
  unfoldable pub add_schedule :
      {D : Type 0}
      → Calendar R D
      → NewSchedule R
      → String
      → List (Option ℕ)
      → R
      → Dca R
      → Answer (Schedule R) × Dca R × List (Request R)
  unfolding compute_next_run_at get_next_group_no
  add_schedule cal n id trades now d = elim (compute_next_run_at cal n.timing now false) [
    | threw ↦ (threw, d, [])
    | got next ↦
        let s = schedule_of n id next (group_for n trades d) now in
        (got s, record d { schedules = d.schedules ++ s ∷ [] }, upsert s ∷ schedule_changed ∷ [])
  ]

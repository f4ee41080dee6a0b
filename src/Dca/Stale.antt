-- ===== src/Dca/Stale.antt =====
-- What the database holds of a schedule of src/core/dca_manager.py after its writes.
use supabot.Base.{
  ==_self, List, Option, String, [], ap, if◌then◌else◌, nat_eq, none, refl, some, string_eq, true,
  ◌++◌, ◌==◌, ◌∙◌, ◌∷◌, ◌≡◌,
}
use supabot.Dca.Due.{Run, deferred, held_back, sidecar_retry_seconds}
use supabot.Dca.Manager.{defer_schedule}
use supabot.Dca.Schedules.{
  Request, Schedule, change_first, delete, first_with, schedule_changed, upsert,
}
use supabot.Dca.Lookup.{first_with-change}
use supabot.Dca.Times.{Calendar}
use supabot.Base.Float.{Float}

-- What a write leaves of the row with the id: nothing is said of it, it is gone, or it is written.
abbrev pub effect_on :
    {R : Type 0} → String → Request R → Option (Option (Schedule R)) → Option (Option (Schedule R))
effect_on id (upsert s) row = if s.id == id then some (some s) else row
effect_on id (delete other) row = if other == id then some none else row
effect_on id schedule_changed row = row

-- The row after all writes, if one of them is about it.
abbrev pub row_after :
    {R : Type 0}
    → String
    → Option (Option (Schedule R))
    → List (Request R)
    → Option (Option (Schedule R))
row_after id row [] = row
row_after id row (w ∷ writes) = row_after id (effect_on id w row) writes

module _ {R : Type 0} where
  row_after-append :
      (id : String) (row : Option (Option (Schedule R))) (xs ys : List (Request R))
      → row_after id row (xs ++ ys) ≡ row_after id (row_after id row xs) ys
  row_after-append id row [] ys = refl
  row_after-append id row (x ∷ xs) ys = row_after-append id (effect_on id x row) xs ys

  row_after-two :
      (x y : Schedule R) (row : Option (Option (Schedule R))) (xs : List (Request R))
      → row_after y.id row ((xs ++ upsert x ∷ []) ++ upsert y ∷ []) ≡ some (some y)
  row_after-two x y row xs =
      row_after-append y.id row (xs ++ upsert x ∷ []) (upsert y ∷ [])
      ∙ ap (λ test. if test then some (some y) else row_after y.id row (xs ++ upsert x ∷ []))
          (==_self y.id)

module _ {R W : Type 0} where
  deferred_writes :
      (id : String) (t : R) (b : Run R W) (m : Schedule R)
      → first_with id b.dca.schedules ≡ some m
      → ((deferred id t b).dca.schedules
          ≡ change_first id (λ x. record x { next_run_at = t }) b.dca.schedules)
        × ((deferred id t b).writes ≡ b.writes ++ upsert (record m { next_run_at = t }) ∷ [])
  unfolding deferred defer_schedule
  deferred_writes id t b m h = rw (h, defer_schedule) (refl, refl)

module _ {R W D : Type 0} ⦃f : Float R⦄ (cal : Calendar R D) (now : R) where
  -- When trading is stopped, a schedule is postponed by 20 minutes in the list of the manager, but
  -- the row of the database is left at its old time.
  pub held_back_stale :
      (s : Schedule R) (b : Run R W) (row : Option (Option (Schedule R)))
      → first_with s.id b.dca.schedules ≡ some s
      → let b' = (held_back cal now s b).1 in
        ((m : Schedule R) × (first_with s.id b'.dca.schedules ≡ some m)
          × (m.next_run_at ≡ f.add now (f.of_ℕ sidecar_retry_seconds)))
        × ((r : Schedule R) × (row_after s.id row b'.writes ≡ some (some r))
            × (r.next_run_at ≡ s.next_run_at))
  unfolding held_back
  held_back_stale s b row found =
      let t = f.add now (f.of_ℕ sidecar_retry_seconds) in
      let (list, writes) = deferred_writes s.id t b s found in
      (
        (
          record s { next_run_at = t },
          ap (first_with s.id) list
              ∙ first_with-change s.id (λ x. record x { next_run_at = t }) b.dca.schedules s found
                  refl,
          refl,
        ),
        (
          record s { is_carryover = true; carryover_reason = some "sidecar_halt" },
          ap
                (λ ws. row_after s.id row (
                  ws
                  ++ upsert
                      (record s { is_carryover = true; carryover_reason = some "sidecar_halt" })
                    ∷ []))
                writes
              ∙ row_after-two (record s { next_run_at = t })
                  (record s { is_carryover = true; carryover_reason = some "sidecar_halt" }) row
                  b.writes,
          refl,
        ),
      )

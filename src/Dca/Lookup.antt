-- ===== src/Dca/Lookup.antt =====
-- Finding a schedule after a change.
use supabot.Base.{
  ==_iff, List, String, [], arith, filter, none, not, refl, some, string_eq, ◌==◌, ◌∷◌, ◌≡◌, ◌≢◌,
}
use supabot.Dca.Schedules.{Schedule, change_first, first_with}

module _ {R : Type 0} where
  pub first_with-filter :
      (id : String) (xs : List (Schedule R))
      → first_with id (filter (λ s. not (s.id == id)) xs) ≡ none
  first_with-filter id [] = refl
  first_with-filter id (s ∷ xs) = ground (arith, first_with-filter id xs)

  pub first_with-change :
      (id : String) (change : Schedule R → Schedule R) (xs : List (Schedule R)) (s : Schedule R)
      → first_with id xs ≡ some s
      → (change s).id ≡ id
      → first_with id (change_first id change xs) ≡ some (change s)
  first_with-change id change [] s h keeps = cc
  first_with-change id change (x ∷ xs) s h keeps =
      ground (arith, first_with-change id change xs s, ==_iff (change s).id id)

  pub first_with-id :
      (id : String) (xs : List (Schedule R)) (s : Schedule R)
      → first_with id xs ≡ some s
      → s.id ≡ id
  first_with-id id [] s h = cc
  first_with-id id (x ∷ xs) s h = ground (arith, first_with-id id xs s, ==_iff x.id id)

  pub first_with-other :
      (id other : String) (change : Schedule R → Schedule R) (xs : List (Schedule R))
      → ((s : Schedule R) → s.id ≡ id → (change s).id ≡ id)
      → other ≢ id
      → first_with other (change_first id change xs) ≡ first_with other xs
  first_with-other id other change [] keeps ne = refl
  first_with-other id other change (x ∷ xs) keeps ne = ground (
    arith,
    first_with-other id other change xs keeps ne,
    keeps x,
    ==_iff x.id id,
    ==_iff x.id other,
    ==_iff (change x).id other,
  )

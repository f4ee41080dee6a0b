-- ===== src/Tokens/Chosen.antt =====
-- The choice of a stock in src/core/ticker_disambiguation.py.
use supabot.Base.{
  ==_iff, Option-cases, String, arith, get_elem?, inl, inr, nat_eq, none, refl, some, string_eq, ℕ,
  ◌-◌, ◌≡◌, ◌≤◌,
}
use supabot.Base.Int.{negsuc, pos, ℤ}
use supabot.Base.Dict.{Dict, lookup, lookup-erase}
use supabot.Tokens.Defs.{Entry, ok}
use supabot.Tokens.Choice.{Choice, Question, candidate, pick, pop_valid_disambiguation}

-- A code that is returned is that of a candidate, at an index that is in range, of an entry which
-- the user owns and which is at most 300 seconds old, with the text and the name of the question.
pub chosen_code :
    (token : ℕ) (user : String) (idx : ℤ) (now : ℕ) (d : Dict ℕ (Entry (Choice Question)))
    {code : String} {q : Question}
    → (pop_valid_disambiguation token user idx now d).0 ≡ ok (code, q)
    → (p : Entry (Choice Question)) × (i : ℕ) × (name : String) × (lookup token d ≡ some p)
      × (p.owner ≡ user)
      × (now - p.created_at ≤ 300_000_000)
      × (idx ≡ pos i)
      × (get_elem? p.body.candidates i ≡ some (name, code))
      × (q ≡ p.body.asked)
unfolding pop_valid_disambiguation pick
chosen_code token user (negsuc i) now d h = elim (Option-cases (lookup token d)) [
  | inl e ↦ cc (rw e at h)
  | inr (p, e) ↦ ground arith
]
chosen_code token user (pos i) now d h = elim (Option-cases (lookup token d)) [
  | inl e ↦ cc (rw e at h)
  | inr (p, e) ↦ elim (Option-cases (get_elem? p.body.candidates i)) [
    | inl out ↦ ground arith
    | inr ((name, c), there) ↦ (
      p,
      i,
      name,
      e,
      ground (arith, ==_iff p.owner user),
      ground arith,
      refl,
      ground arith,
      ground arith,
    )
  ]
]

-- Every attempt of the owner uses the entry up, with a bad index and too late as well.
pub choice_used_up :
    (token : ℕ) (user : String) (idx : ℤ) (now : ℕ) (d : Dict ℕ (Entry (Choice Question)))
    (p : Entry (Choice Question))
    → lookup token d ≡ some p
    → p.owner ≡ user
    → lookup token (pop_valid_disambiguation token user idx now d).1 ≡ none
unfolding pop_valid_disambiguation pick
choice_used_up token user idx now d p e o =
    rw (e, pop_valid_disambiguation, pick)
      (ground (arith, ==_iff p.owner user, lookup-erase token token d, candidate p.body idx))

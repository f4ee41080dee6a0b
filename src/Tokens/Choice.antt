-- ===== src/Tokens/Choice.antt =====
-- src/core/ticker_disambiguation.py: the choice among the stocks that a name may mean.
use supabot.Base.{
  List, Option, String, get_elem?, if◌then◌else◌, nat_eq, none, not, some, string_eq, ℕ, ◌==◌,
}
use supabot.Base.Int.{negsuc, pos, ℤ}
use supabot.Base.Dict.{Dict, erase, insert, lookup}
use supabot.Tokens.Defs.{
  Entry, Result, bad_index, choice_ttl, create, err, expired, foreign, is_stale, missing, ok,
}

-- `B` is the original text and name, or the intent; a candidate is a name and its code.
pub record Choice (B : Type 0) : Type 0 where
  pub asked : B
  pub candidates : List (String × String)

-- `candidates[idx]`, behind the test `idx < 0 or idx >= len(candidates)`.
abbrev pub candidate : {B : Type 0} → Choice B → ℤ → Option (String × String)
candidate c (pos i) = get_elem? c.candidates i
candidate c (negsuc i) = none

abbrev pub pick_entry :
    {B : Type 0}
    → ℕ
    → String
    → ℤ
    → ℕ
    → Dict ℕ (Entry (Choice B))
    → Option (Entry (Choice B))
    → Result (String × B) × Dict ℕ (Entry (Choice B))
pick_entry token user idx now d none = (err missing, d)
pick_entry token user idx now d (some p) =
    if not (p.owner == user)
    then (err foreign, d)
    else (if is_stale choice_ttl p.created_at now
        then (err expired, erase token d)
        else elim (candidate p.body idx) [
          | none ↦ (err bad_index, erase token d)
          | some (name, code) ↦ (ok (code, p.body.asked), erase token d)
        ])

-- What the two consuming lookups share: the code that was chosen and what was asked.
unfoldable pub pick :
    {B : Type 0}
    → ℕ
    → String
    → ℤ
    → ℕ
    → Dict ℕ (Entry (Choice B))
    → Result (String × B) × Dict ℕ (Entry (Choice B))
pick token user idx now d = pick_entry token user idx now d (lookup token d)

-- The original text and the raw name.
abbrev pub Question : Type 0
Question = String × String

unfoldable pub create_disambiguation_token :
    String
    → String
    → String
    → List (String × String)
    → ℕ
    → Dict ℕ (Entry (Choice Question))
    → Option (ℕ × Dict ℕ (Entry (Choice Question)))
create_disambiguation_token user original_text raw_name candidates now = create (record {
  owner = user;
  created_at = now;
  body = record { asked = (original_text, raw_name); candidates = candidates };
})

unfoldable pub pop_valid_disambiguation :
    ℕ
    → String
    → ℤ
    → ℕ
    → Dict ℕ (Entry (Choice Question))
    → Result (String × Question) × Dict ℕ (Entry (Choice Question))
pop_valid_disambiguation = pick

-- `V` are the values of an intent, and `text` makes one of a code.
module _ {V : Type 0} (text : String → V) where
  unfoldable pub create_nl_disambiguation_token :
      String
      → Dict String V
      → List (String × String)
      → ℕ
      → Dict ℕ (Entry (Choice (Dict String V)))
      → Option (ℕ × Dict ℕ (Entry (Choice (Dict String V))))
  create_nl_disambiguation_token user intent candidates now = create (record {
    owner = user;
    created_at = now;
    body = record { asked = intent; candidates = candidates };
  })

  abbrev pub with_ticker : Result (String × Dict String V) → Result (Dict String V)
  with_ticker (ok (code, intent)) = ok (insert "ticker" (text code) intent)
  with_ticker (err r) = err r

  unfoldable pub pop_valid_nl_disambiguation :
      ℕ
      → String
      → ℤ
      → ℕ
      → Dict ℕ (Entry (Choice (Dict String V)))
      → Result (Dict String V) × Dict ℕ (Entry (Choice (Dict String V)))
  pop_valid_nl_disambiguation token user idx now d =
      let (r, d') = pick token user idx now d in (with_ticker r, d')

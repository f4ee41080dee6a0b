-- ===== src/Tokens/Minting.antt =====
-- The search for a new token in the stores of src/core/manual_order_tokens.py and its like.
use supabot.Base.{
  Bool-cases, [], arith, false, if◌then◌else◌, inl, inr, leb, length, nat_eq, none, some, suc, true,
  zero, ℕ, ◌+◌, ◌<◌, ◌∷◌, ◌≡◌, ◌≢◌, ◌≤◌,
}
use supabot.Base.Dict.{Dict, contains, insert, lookup, lookup-insert}
use supabot.Tokens.Defs.{create, fresh_token, next_token}

module _ {A : Type 0} where
  -- The entries whose token is `t` or more.
  count_from : ℕ → Dict ℕ A → ℕ
  count_from t [] = 0
  count_from t ((j, v) ∷ d) = (if leb t j then 1 else 0) + count_from t d

  count_from-le : (t : ℕ) (d : Dict ℕ A) → count_from t d ≤ length d
  unfolding count_from
  count_from-le t [] = omega arith
  count_from-le t ((j, v) ∷ d) = ground (arith, count_from-le t d)

  count_from_mono : (t : ℕ) (d : Dict ℕ A) → count_from (t + 1) d ≤ count_from t d
  unfolding count_from
  count_from_mono t [] = omega arith
  count_from_mono t ((j, v) ∷ d) = ground (arith, count_from_mono t d)

  count_from-lt :
      (t : ℕ) (d : Dict ℕ A) → contains t d ≡ true → count_from (t + 1) d < count_from t d
  unfolding count_from
  count_from-lt t [] h = cc
  count_from-lt t ((j, v) ∷ d) h = ground (arith, count_from-lt t d, count_from_mono t d)

  next_token_total :
      (fuel : ℕ) (d : Dict ℕ A) (t : ℕ)
      → count_from t d < fuel
      → (token : ℕ) × (next_token fuel d t ≡ some token) × (contains token d ≡ false)
  unfolding next_token
  next_token_total zero d t h = absurd (omega arith)
  next_token_total (suc fuel) d t h = elim (Bool-cases (contains t d)) [
    | inl taken ↦
        rw taken (next_token_total fuel d (t + 1) (omega (arith, count_from-lt t d taken)))
    | inr free ↦ (t, rw free, free)
  ]

  pub fresh_token_total :
      (d : Dict ℕ A) → (token : ℕ) × (fresh_token d ≡ some token) × (lookup token d ≡ none)
  unfolding fresh_token
  fresh_token_total d =
      let (token, found, free) =
        next_token_total (length d + 1) d (length d + 1)
          (omega (arith, count_from-le (length d + 1) d)) in
      (token, found, ground arith)

  -- A new token is always found: it is one that the table does not have, the entry is stored under
  -- it, and every other token keeps what it had.
  pub create_fresh :
      (v : A) (d : Dict ℕ A)
      → (token : ℕ) × (d' : Dict ℕ A) × (create v d ≡ some (token, d'))
        × (lookup token d ≡ none)
        × (lookup token d' ≡ some v)
        × ((t : ℕ) → t ≢ token → lookup t d' ≡ lookup t d)
  unfolding create
  create_fresh v d =
      let (token, found, free) = fresh_token_total d in
      (
        token,
        insert token v d,
        rw (found, create),
        free,
        ground (arith, lookup-insert token token v d),
        λ t ne. ground (arith, lookup-insert token t v d),
      )

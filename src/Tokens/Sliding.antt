-- ===== src/Tokens/Sliding.antt =====
-- A series of clicks on one list view of src/core/list_view_tokens.py.
use supabot.Base.{
  ==_iff, All, List, String, [], arith, nat_eq, refl, some, string_eq, ℕ, ◌-◌, ◌∷◌, ◌≡◌, ◌≤◌,
}
use supabot.Base.Dict.{Dict, insert, lookup, lookup-insert}
use supabot.Tokens.Defs.{Result, ok, order_ttl}
use supabot.Tokens.ListView.{View, peek_list_view}

-- Each click comes at most `ttl` after the one before.
abbrev pub IsSteady : ℕ → List ℕ → Type 0
IsSteady last [] = Unit
IsSteady last (now ∷ times) = (now - last ≤ 600_000_000) × IsSteady now times

module _ {V Z : Type 0} where
  -- The results of a series of clicks on one message, at the given times.
  abbrev pub browse : ℕ → String → List ℕ → Dict ℕ (View V Z) → List (Result (View V Z))
  browse token user [] d = []
  browse token user (now ∷ times) d =
      let (r, d', _) = peek_list_view token user now d in r ∷ browse token user times d'

  -- The entry as it was made, at some time of access.
  abbrev pub Shows : View V Z → Result (View V Z) → Type 0
  Shows e r = (t : ℕ) × (r ≡ ok (record e { last_access = t }))

  peek_list_view_ok :
      (token : ℕ) (user : String) (now : ℕ) (d : Dict ℕ (View V Z)) (e : View V Z)
      → lookup token d ≡ some e
      → e.owner ≡ user
      → now - e.last_access ≤ order_ttl
      → peek_list_view token user now d
        ≡ (ok (record e { last_access = now }), insert token (record e { last_access = now }) d, [])
  unfolding peek_list_view
  peek_list_view_ok token user now d e h o young =
      rw (h, peek_list_view) (ground (arith, ==_iff e.owner user))

  -- However long the owner goes on, no click is refused as long as each comes within 600 seconds of
  -- the one before; and each shows the entry that was stored, with its frozen data.
  pub browse_alive :
      (token : ℕ) (user : String) (times : List ℕ) (d : Dict ℕ (View V Z)) (e : View V Z)
      → lookup token d ≡ some e
      → e.owner ≡ user
      → IsSteady e.last_access times
      → All (Shows e) (browse token user times d)
  browse_alive token user [] d e h o steady = tt
  browse_alive token user (now ∷ times) d e h o steady =
      let d' = insert token (record e { last_access = now }) d in
      rw (peek_list_view_ok token user now d e h o steady.0) (
        (now, refl),
        browse_alive token user times d' (record e { last_access = now })
            (ground (arith, lookup-insert token token (record e { last_access = now }) d)) o
            steady.1,
      )

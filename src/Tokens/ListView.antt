-- ===== src/Tokens/ListView.antt =====
-- src/core/list_view_tokens.py: tokens that are looked at many times, with a sliding lifetime.
use supabot.Base.{
  List, Option, String, [], if◌then◌else◌, nat_eq, none, not, some, string_eq, ℕ, ◌==◌, ◌∷◌,
}
use supabot.Base.Dict.{Dict, erase, insert, lookup}
use supabot.Tokens.Defs.{
  Event, Result, create, err, expired, foreign, is_stale, missing, ok, order_ttl,
}

-- `V` are the values of the display state, `Z` the frozen data of the command.
pub record View (V Z : Type 0) : Type 0 where
  pub owner : String
  pub kind : String
  pub state : Dict String V
  pub snapshot : Option Z
  pub created_at : ℕ
  pub last_access : ℕ

-- `dict.update`
abbrev pub update_all : {V : Type 0} → Dict String V → Dict String V → Dict String V
update_all state [] = state
update_all state ((k, v) ∷ updates) = update_all (insert k v state) updates

module _ {V Z : Type 0} where
  unfoldable pub create_list_view_token :
      String
      → String
      → Dict String V
      → Option Z
      → ℕ
      → Dict ℕ (View V Z)
      → Option (ℕ × Dict ℕ (View V Z))
  create_list_view_token user kind state snapshot now = create (record {
    owner = user;
    kind = kind;
    state = state;
    snapshot = snapshot;
    created_at = now;
    last_access = now;
  })

  unfoldable pub view_expired : View V Z → List Event
  view_expired e =
      record {
        level = "info";
        source = "list_view";
        message = "list view session expired";
        details = e.kind;
      }
      ∷ []

  -- `entry["last_access"] = time.time()` writes the entry that the table holds.
  abbrev pub peek_entry :
      ℕ
      → String
      → ℕ
      → Dict ℕ (View V Z)
      → Option (View V Z)
      → Result (View V Z) × Dict ℕ (View V Z) × List Event
  unfolding view_expired
  peek_entry token user now d none = (err missing, d, [])
  peek_entry token user now d (some e) =
      if not (e.owner == user)
      then (err foreign, d, [])
      else (if is_stale order_ttl e.last_access now
          then (err expired, erase token d, view_expired e)
          else (
            ok (record e { last_access = now }),
            insert token (record e { last_access = now }) d,
            [],
          ))

  unfoldable pub peek_list_view :
      ℕ → String → ℕ → Dict ℕ (View V Z) → Result (View V Z) × Dict ℕ (View V Z) × List Event
  unfolding view_expired
  peek_list_view token user now d = peek_entry token user now d (lookup token d)

  unfoldable pub update_list_view_state : ℕ → Dict String V → Dict ℕ (View V Z) → Dict ℕ (View V Z)
  update_list_view_state token updates d = elim (lookup token d) [
    | none ↦ d
    | some e ↦ insert token (record e { state = update_all e.state updates }) d
  ]

  unfoldable pub discard_list_view : ℕ → Dict ℕ (View V Z) → Dict ℕ (View V Z)
  discard_list_view token d = erase token d

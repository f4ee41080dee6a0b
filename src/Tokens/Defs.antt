-- ===== src/Tokens/Defs.antt =====
-- What the token tables share: an entry with its owner and time, the choice of a new token, and
-- the checks of a consuming lookup.
use supabot.Base.{
  Bool, List, Option, String, [], if◌then◌else◌, length, ltb, nat_eq, none, not, some, string_eq,
  suc, zero, ℕ, ◌+◌, ◌-◌, ◌==◌,
}
use supabot.Base.Dict.{Dict, contains, erase, insert, lookup}

-- `"user_id"`, `"created_at"`, and the fields that differ from table to table.
pub record Entry (A : Type 0) : Type 0 where
  pub owner : String
  pub created_at : ℕ
  pub body : A

-- The three refusals; `bad_index` is the one more of the ticker choice.
pub data Refusal : Type 0 where
  missing foreign expired bad_index : Refusal

pub data Result (A : Type 0) : Type 0 where
  ok : A → Result A
  err : Refusal → Result A

-- A call of `append_operational_event`.
pub record Event : Type 0 where
  pub level : String
  pub source : String
  pub message : String
  pub details : String

-- 600 and 300 seconds.
abbrev pub order_ttl : ℕ
order_ttl = 600_000_000

abbrev pub choice_ttl : ℕ
choice_ttl = 300_000_000

-- `while token in pending: token = str(int(token) + 1)`, on fuel.
unfoldable pub next_token : {A : Type 0} → ℕ → Dict ℕ A → ℕ → Option ℕ
next_token zero d token = none
next_token (suc fuel) d token =
    let rest = next_token fuel d (token + 1) in if contains token d then rest else some token

-- The loop starts at `len(pending) + 1`.
unfoldable pub fresh_token : {A : Type 0} → Dict ℕ A → Option ℕ
fresh_token d = next_token (length d + 1) d (length d + 1)

-- A new token with its entry; `none` would be a loop that has not ended.
unfoldable pub create : {A : Type 0} → A → Dict ℕ A → Option (ℕ × Dict ℕ A)
create v d = elim (fresh_token d) [ none ↦ none | some token ↦ some (token, insert token v d) ]

-- `time.time() - created > ttl`
abbrev pub is_stale : ℕ → ℕ → ℕ → Bool
is_stale ttl since now = ltb ttl (now - since)

-- The outcome for the entry that the table has under the token.
abbrev pub pop_entry :
    {A : Type 0}
    → ℕ
    → (A → List Event)
    → ℕ
    → String
    → ℕ
    → Dict ℕ (Entry A)
    → Option (Entry A)
    → Result (Entry A) × Dict ℕ (Entry A) × List Event
pop_entry ttl report token user now d none = (err missing, d, [])
pop_entry ttl report token user now d (some p) =
    if not (p.owner == user)
    then (err foreign, d, [])
    else (if is_stale ttl p.created_at now
        then (err expired, erase token d, report p.body)
        else (ok p, erase token d, []))

-- The consuming lookup that the tables share: the result, the table after it, the events.
unfoldable pub pop_valid :
    {A : Type 0}
    → ℕ
    → (A → List Event)
    → ℕ
    → String
    → ℕ
    → Dict ℕ (Entry A)
    → Result (Entry A) × Dict ℕ (Entry A) × List Event
pop_valid ttl report token user now d = pop_entry ttl report token user now d (lookup token d)

-- ===== src/Tokens/Manual.antt =====
-- src/core/manual_order_tokens.py and strategy_tokens.py: tokens that are used once.
use supabot.Base.{Bool, List, Option, String, [], nat_eq, ℕ, ◌∷◌}
use supabot.Base.Dict.{Dict, erase}
use supabot.Tokens.Defs.{Entry, Event, Result, create, err, ok, order_ttl, pop_valid}

-- A price and a volume are Python floats, which are only stored: any type `R`.
pub record ManualOrder (R : Type 0) : Type 0 where
  pub exchange : String
  pub side : String
  pub ticker : String
  pub price : R
  pub volume : R
  pub ord_type : String
  pub auto_reorder : Bool

-- One order of a cancellation, with the three fields that are kept of it.
pub record CancelTarget : Type 0 where
  pub exchange : String
  pub uuid : String
  pub ticker : String

-- The kind and the parameters of a strategy order; the parameters are handed on as they are.
pub record StrategyOrder (P : Type 0) : Type 0 where
  pub kind : String
  pub payload : P

module _ {R : Type 0} where
  unfoldable pub create_manual_order_token :
      String
      → ManualOrder R
      → ℕ
      → Dict ℕ (Entry (ManualOrder R))
      → Option (ℕ × Dict ℕ (Entry (ManualOrder R)))
  create_manual_order_token user order now =
      create (record { owner = user; created_at = now; body = order })

  unfoldable pub manual_expired : ManualOrder R → List Event
  manual_expired o =
      record {
        level = "warning";
        source = "manual_order";
        message = "manual order confirmation expired";
        details = o.ticker;
      }
      ∷ []

  unfoldable pub pop_valid_manual_order :
      ℕ
      → String
      → ℕ
      → Dict ℕ (Entry (ManualOrder R))
      → Result (Entry (ManualOrder R)) × Dict ℕ (Entry (ManualOrder R)) × List Event
  unfolding manual_expired
  pop_valid_manual_order = pop_valid order_ttl manual_expired

unfoldable pub create_cancel_token :
    String
    → List CancelTarget
    → ℕ
    → Dict ℕ (Entry (List CancelTarget))
    → Option (ℕ × Dict ℕ (Entry (List CancelTarget)))
create_cancel_token user orders now =
    create (record { owner = user; created_at = now; body = orders })

unfoldable pub pop_valid_cancel_token :
    ℕ
    → String
    → ℕ
    → Dict ℕ (Entry (List CancelTarget))
    → Result (Entry (List CancelTarget)) × Dict ℕ (Entry (List CancelTarget)) × List Event
pop_valid_cancel_token = pop_valid order_ttl (λ _. [])

-- The body is the user to reset; the owner is the administrator.
unfoldable pub create_reset_token :
    String → String → ℕ → Dict ℕ (Entry String) → Option (ℕ × Dict ℕ (Entry String))
create_reset_token admin target now =
    create (record { owner = admin; created_at = now; body = target })

unfoldable pub pop_valid_reset_token :
    ℕ
    → String
    → ℕ
    → Dict ℕ (Entry String)
    → Result (Entry String) × Dict ℕ (Entry String) × List Event
pop_valid_reset_token = pop_valid order_ttl (λ _. [])

module _ {P : Type 0} where
  unfoldable pub create_strategy_token :
      String
      → String
      → P
      → ℕ
      → Dict ℕ (Entry (StrategyOrder P))
      → Option (ℕ × Dict ℕ (Entry (StrategyOrder P)))
  create_strategy_token user kind payload now =
      create (record {
        owner = user;
        created_at = now;
        body = record { kind = kind; payload = payload };
      })

  unfoldable pub strategy_expired : StrategyOrder P → List Event
  strategy_expired o =
      record {
        level = "warning";
        source = "strategy_order";
        message = "strategy order confirmation expired";
        details = o.kind;
      }
      ∷ []

  -- The payload alone is returned.
  abbrev pub payload_of : Result (Entry (StrategyOrder P)) → Result P
  payload_of (ok e) = ok e.body.payload
  payload_of (err r) = err r

  unfoldable pub pop_valid_strategy_token :
      ℕ
      → String
      → ℕ
      → Dict ℕ (Entry (StrategyOrder P))
      → Result P × Dict ℕ (Entry (StrategyOrder P)) × List Event
  unfolding strategy_expired
  pop_valid_strategy_token token user now d =
      let (r, d', events) = pop_valid order_ttl strategy_expired token user now d in
      (payload_of r, d', events)

  unfoldable pub discard_strategy_token :
      ℕ → Dict ℕ (Entry (StrategyOrder P)) → Dict ℕ (Entry (StrategyOrder P))
  discard_strategy_token token d = erase token d

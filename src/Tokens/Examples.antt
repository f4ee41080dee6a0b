-- ===== src/Tokens/Examples.antt =====
-- The theorems on the token tables at concrete tables.
use supabot.Base.{
  List, String, [], arith, nat_eq, none, refl, some, string_eq, true, ℕ, ◌∷◌, ◌≡◌, ◌≢◌,
}
use supabot.Base.Dict.{Dict, lookup}
use supabot.Tokens.Defs.{Entry, create, err, fresh_token, missing, next_token, ok}
use supabot.Tokens.Manual.{
  ManualOrder, StrategyOrder, create_manual_order_token, pop_valid_manual_order,
}
use supabot.Tokens.ListView.{View}
use supabot.Tokens.Choice.{Choice, Question}
use supabot.Tokens.Minting.{create_fresh}
use supabot.Tokens.SingleUse.{Attempt, attempted, pop-create_manual_order, second_tap}

abbrev two_pending : Dict ℕ ℕ
two_pending = (3, 10) ∷ (4, 20) ∷ []

create_fresh_example :
    (token : ℕ) × (d' : Dict ℕ ℕ) × (create 30 two_pending ≡ some (token, d'))
    × (lookup token two_pending ≡ none)
    × (lookup token d' ≡ some 30)
    × ((t : ℕ) → t ≢ token → lookup t d' ≡ lookup t two_pending)
create_fresh_example = create_fresh 30 two_pending

-- The first number tried is 3, and both 3 and 4 are in use.
fresh_token_is_5 : fresh_token two_pending ≡ some 5
unfolding fresh_token next_token
fresh_token_is_5 = refl

abbrev buy : ManualOrder ℕ
buy = record {
  exchange = "kis";
  side = "bid";
  ticker = "005930";
  price = 70_000;
  volume = 2;
  ord_type = "limit";
  auto_reorder = true;
}

abbrev nothing_pending : Dict ℕ (Entry (ManualOrder ℕ))
nothing_pending = []

abbrev then_sell : ManualOrder ℕ
then_sell = record buy { side = "ask" }

pop-create_manual_order_example :
    (token : ℕ) × (d' : Dict ℕ (Entry (ManualOrder ℕ))) × (create_manual_order_token "ann" buy
        1_000_000 nothing_pending
      ≡ some (token, d'))
    × (pop_valid_manual_order token "ann" 2_000_000 d'
        ≡ (ok (record { owner = "ann"; created_at = 1_000_000; body = buy }), nothing_pending, []))
    × ((attempts : List Attempt) (other : String) (later : ℕ)
        → pop_valid_manual_order token other later (attempted attempts nothing_pending)
          ≡ (err missing, attempted attempts nothing_pending, []))
pop-create_manual_order_example =
    pop-create_manual_order "ann" buy 1_000_000 2_000_000 nothing_pending (omega arith)

second_tap_example :
    (token : ℕ) × (d' d'' : Dict ℕ (Entry (ManualOrder ℕ))) × (create_manual_order_token "ann" buy
        1_000_000 nothing_pending
      ≡ some (token, d'))
    × (create_manual_order_token "ann" then_sell 3_000_000
          (pop_valid_manual_order token "ann" 2_000_000 d').1
        ≡ some (token, d''))
    × (pop_valid_manual_order token "ann" 4_000_000 d'' ≡ (
      ok (record { owner = "ann"; created_at = 3_000_000; body = then_sell }),
      nothing_pending,
      [],
    ))
second_tap_example =
    second_tap "ann" buy then_sell 1_000_000 2_000_000 3_000_000 4_000_000 nothing_pending
      (omega arith) (omega arith)

abbrev strategies : Dict ℕ (Entry (StrategyOrder ℕ))
strategies =
    (1, record { owner = "ann"; created_at = 5; body = record { kind = "grid"; payload = 9 } }) ∷ []

abbrev question : Entry (Choice Question)
question = record {
  owner = "ann";
  created_at = 5;
  body = record {
    asked = ("buy samsung", "samsung");
    candidates = ("Samsung", "005930") ∷ ("Samsung SDI", "006400") ∷ [];
  };
}

abbrev questions : Dict ℕ (Entry (Choice Question))
questions = (1, question) ∷ []

abbrev view : View ℕ ℕ
view = record {
  owner = "ann";
  kind = "orders";
  state = ("page", 0) ∷ [];
  snapshot = some 4;
  created_at = 0;
  last_access = 0;
}

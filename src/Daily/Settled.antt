-- ===== src/Daily/Settled.antt =====
-- The settling of pending purchases at a concrete batch.
use supabot.Base.{
  List, String, [], false, nat_eq, none, refl, some, string_eq, true, ◌&&◌, ◌∷◌, ◌≡◌,
}
use supabot.Daily.Refunded.{full_cost, has_uuid, refunded_once, refunds_blindly}
use supabot.Daily.Reconcile.{reconcile, sort_pending}
use supabot.Base.Float.{int_float}
use supabot.Base.Int.{pos, ℤ, ◌+ℤ◌}
use supabot.Base.Dict.{Dict, lookup}
use supabot.Budget.Defs.{OrderRow, Pending}
use supabot.Budget.Plan.{carryover_of}
use supabot.Budget.Examples.{add_entry, book, grid}

abbrev a_pending : String → Pending ℤ
a_pending uuid = record {
  uuid = uuid;
  ticker = "005930";
  price = pos 1_000;
  volume = pos 5;
  group_no = some 4;
  budget_epoch = 1;
  filled_volume = pos 0;
}

abbrev pending : List (Pending ℤ)
pending = a_pending "u1" ∷ a_pending "u2" ∷ []

abbrev a_row : String → String → OrderRow ℤ
a_row uuid status = record {
  uuid = uuid;
  ticker = "005930";
  side = "bid";
  price = pos 1_000;
  volume = pos 5;
  filled_volume = pos 2;
  status = status;
  group_no = some 4;
  reorder_of = "";
}

-- One is refunded for what was not filled, and one waits for the bot.
abbrev rows : Dict String (OrderRow ℤ)
rows = ("u1", a_row "u1" "cancel") ∷ ("u2", a_row "u2" "cancel_requested") ∷ []

one_back_one_waiting :
    sort_pending rows [] pending
    ≡ (record (a_pending "u1") { filled_volume = pos 2 } ∷ [], a_pending "u2" ∷ [])
unfolding sort_pending
one_back_one_waiting = refl

refunded_once_example :
    let (back, waiting) = sort_pending rows [] pending in
    ((has_uuid "u2" back && has_uuid "u2" waiting) ≡ false)
    × ((o : OrderRow ℤ)
        → lookup "u2" rows ≡ some o
        → o.status ≡ "cancel_requested"
        → has_uuid "u2" pending ≡ true
        → (has_uuid "u2" waiting ≡ true) × (has_uuid "u2" back ≡ false))
refunded_once_example = refunded_once rows [] pending "u2" (refl, (refl, tt))

refunds_blindly_example :
    let (b', bought', waiting, deleted) = reconcile add_entry grid none none none pending [] book in
    (carryover_of b'.params ≡ carryover_of book.params +ℤ full_cost pending) × (waiting ≡ [])
refunds_blindly_example =
    refunds_blindly add_entry grid (a_pending "u1") (a_pending "u2" ∷ []) [] book
      (unfold supabot.Base.Int.◌*ℤ◌ in ((refl, refl, refl), ((refl, refl, refl), tt)))

-- ===== src/Orders/Examples.antt =====
-- The theorems on the order book at a concrete book.
use supabot.Base.{
  ==_iff, List, String, [], false, nat_eq, none, refl, some, string_eq, ◌∷◌, ◌≡◌, ◌≢◌,
}
use supabot.Base.Int.{pos, ℤ}
use supabot.Base.Float.{int_float}
use supabot.Orders.Defs.{Manager, NewOrder, Order, bid, partial, perform_all, wait}
use supabot.Orders.Manager.{add_order, new_order, reload, replace_order_uuid, update_order_fill}
use supabot.Orders.Index.{IsIndexed, add_order-IsIndexed}
use supabot.Orders.Replace.{reload-IsIndexed, replace_order_uuid-IsIndexed}
use supabot.Orders.Calls.{Mirrors, Op, add, fill, recheck, replace, run, step}
use supabot.Orders.Mirror.{replace_self_loses_row, run-Mirrors}

abbrev pub bought : NewOrder ℤ
bought = record {
  user_id = "ann";
  exchange = "kis";
  ticker = "005930";
  uuid = "u1";
  price = pos 70_000;
  volume = pos 5;
  side = bid;
  strategy = "grid";
  target_rsi = none;
  linked_to = none;
  status = wait;
  reorder_of = none;
  stop_price = none;
  trailing_stop_pct = none;
  group_no = some 1;
  template_id = none;
  auto_reorder = false;
}

abbrev blank : Order ℤ
blank = record {
  user_id = "";
  exchange = "";
  ticker = "";
  uuid = "";
  price = pos 0;
  volume = pos 0;
  filled_volume = pos 0;
  side = bid;
  strategy = "";
  target_rsi = none;
  linked_to = none;
  status = wait;
  created_at = pos 0;
  next_check_at = pos 0;
  reorder_of = none;
  stop_price = none;
  trailing_stop_pct = none;
  group_no = none;
  template_id = none;
  auto_reorder = false;
}

abbrev pub empty_book : Manager ℤ
empty_book = record {
  heap = λ a. blank;
  next = 0;
  orders = [];
  by_uuid = λ u. none;
  uuid_set = λ u. false;
}

pub empty-IsIndexed : IsIndexed empty_book
empty-IsIndexed = record {
  listed = λ u a h. cc;
  keyed = λ u a h. cc;
  indexed = λ a h. cc;
  members = λ u. refl;
  allocated = λ a h. cc;
}

-- A book with one order, at the address 0.
abbrev pub one_book : Manager ℤ
one_book = (add_order bought (pos 9) empty_book).0

pub one-IsIndexed : IsIndexed one_book
one-IsIndexed = add_order-IsIndexed bought (pos 9) empty_book empty-IsIndexed

pub u1_is_not_u2 : ◌≢◌ {A = String} "u1" "u2"
u1_is_not_u2 = λ e. cc ((==_iff {K = String} "u1" "u2").1 e)

abbrev calls : List (Op ℤ)
calls =
    add bought (pos 9)
    ∷ fill "u1" (pos 2) partial
    ∷ replace "u1" "u2" (pos 20)
    ∷ recheck "u2" (pos 30)
    ∷ []

run-Mirrors_example :
    let (m', effects) = run calls empty_book in
    IsIndexed m' × Mirrors m' (perform_all effects (λ _. none))
run-Mirrors_example =
    run-Mirrors calls empty_book (λ _. none) empty-IsIndexed (λ u. refl)
      (tt, (tt, ((u1_is_not_u2, unfold step add_order update_order_fill in refl), (tt, tt))))

replace_self_loses_row_example :
    let (_, m', effects) = replace_order_uuid "u1" "u1" (pos 20) one_book in
    (m'.by_uuid "u1" ≡ some 0) × (perform_all effects (λ _. none) "u1" ≡ none)
replace_self_loses_row_example =
    replace_self_loses_row "u1" (pos 20) one_book (λ _. none) 0 one-IsIndexed
      (unfold add_order in refl)

replace_order_uuid-IsIndexed_example : IsIndexed (replace_order_uuid "u1" "u2" (pos 20) one_book).1
replace_order_uuid-IsIndexed_example =
    replace_order_uuid-IsIndexed "u1" "u2" (pos 20) one_book one-IsIndexed
      (λ ne. unfold add_order in refl)

reload-IsIndexed_example : IsIndexed (reload (new_order bought (pos 1) ∷ []) one_book)
reload-IsIndexed_example = reload-IsIndexed (new_order bought (pos 1) ∷ []) one_book (refl, tt, tt)

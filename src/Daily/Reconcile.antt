-- ===== src/Daily/Reconcile.antt =====
-- The settling of the purchases of the batch before, in `run_strategy_progression` of
-- manager/backend/services/progression_manager.py. The answers of the three queries are arguments,
-- `none` where a query fails; the history of the batches is left out.
use supabot.Base.{
  Bool, List, Option, String, [], any, false, if◌then◌else◌, nat_eq, none, some, string_eq, true, ℕ,
  ◌&&◌, ◌==◌, ◌∷◌,
}
use supabot.Base.Float.{Float}
use supabot.Base.Dict.{Dict, insert, lookup}
use supabot.Budget.Defs.{Book, Entry, OrderRow, Pending, Template, TradeRow}
use supabot.Budget.Ledger.{refund_cancelled_orders}

-- What the batch finds out about a pending purchase: the bot has yet to cancel it, it is refunded for
-- all but the volume that was filled, or nothing is to be done.
pub data PendingFate (R : Type 0) : Type 0 where
  put_off settled : PendingFate R
  given_back : R → PendingFate R

-- The statuses of an order that will not be filled any more.
abbrev pub is_unfilled : String → Bool
is_unfilled status =
    any (λ s. s == status)
      ("cancel" ∷ "failed" ∷ "rejected" ∷ "market_closed" ∷ "pending_reorder" ∷ "reserved" ∷ [])

abbrev pub same_group : Option ℕ → Option ℕ → Bool
same_group none none = true
same_group (some a) (some b) = a == b
same_group _ _ = false

abbrev pub rows_of : {A : Type 0} → Option (List A) → List A
rows_of none = []
rows_of (some rows) = rows

-- The statuses of an order that was never at the exchange, or is not any more: its row is deleted.
abbrev pub needs_delete : String → Bool
needs_delete status = any (λ s. s == status) ("market_closed" ∷ "pending_reorder" ∷ "reserved" ∷ [])

-- `list.remove` of the first such member.
abbrev pub remove_first : String → List String → List String
remove_first code [] = []
remove_first code (c ∷ cs) = let rest = remove_first code cs in if c == code then cs else c ∷ rest

module _ {R : Type 0} where
  abbrev pub by_uuid : List (OrderRow R) → Dict String (OrderRow R) → Dict String (OrderRow R)
  by_uuid [] d = d
  by_uuid (o ∷ os) d = by_uuid os (insert o.uuid o d)

  abbrev pub by_reorder_of : List (OrderRow R) → Dict String (OrderRow R) → Dict String (OrderRow R)
  by_reorder_of [] d = d
  by_reorder_of (o ∷ os) d =
      by_reorder_of os (if o.reorder_of == "" then d else insert o.reorder_of o d)

  -- The row of each pending purchase: its own, or that of the order in its place.
  abbrev pub status_map :
      Option (List (OrderRow R)) → Option (List (OrderRow R)) → Dict String (OrderRow R)
  status_map own replaced = by_reorder_of (rows_of replaced) (by_uuid (rows_of own) [])

  -- The rows that are deleted.
  abbrev pub stale_rows : Dict String (OrderRow R) → List (Pending R) → List String
  stale_rows rows [] = []
  stale_rows rows (pb ∷ rest) =
      let more = stale_rows rows rest in
      elim (lookup pb.uuid rows) [
        | none ↦ more
        | some o ↦ if needs_delete o.status then o.uuid ∷ more else more
      ]

  abbrev pub has_group : Pending R → Bool
  has_group pb = elim pb.group_no [ none ↦ false | some g ↦ true ]

  -- The purchases that are refunded, and those that stay pending.
  abbrev pub sorted_out :
      PendingFate R
      → Pending R
      → List (Pending R) × List (Pending R)
      → List (Pending R) × List (Pending R)
  sorted_out put_off pb (back, waiting) = (back, pb ∷ waiting)
  sorted_out settled pb (back, waiting) = (back, waiting)
  sorted_out (given_back filled) pb (back, waiting) =
      (record pb { filled_volume = filled } ∷ back, waiting)

  abbrev pub remove_bought : List (Pending R) → List String → List String
  remove_bought [] bought = bought
  remove_bought (pb ∷ rest) bought = remove_bought rest (remove_first pb.ticker bought)

  abbrev pub is_some_pending : List (Pending R) → Bool
  is_some_pending [] = false
  is_some_pending (pb ∷ rest) = true

module _ {R : Type 0} ⦃f : Float R⦄ where
  -- What was bought of a ticker in a batch.
  abbrev pub add_volumes : Option ℕ → String → R → List (TradeRow R) → R
  add_volumes group ticker acc [] = acc
  add_volumes group ticker acc (tr ∷ rest) =
      add_volumes group ticker
        (if same_group tr.group_no group && tr.ticker == ticker then f.add acc tr.volume else acc)
        rest

  unfoldable pub pending_fate :
      Dict String (OrderRow R) → List (TradeRow R) → Pending R → PendingFate R
  pending_fate rows trades pb = elim (lookup pb.uuid rows) [
    | some o ↦
        if o.status == "cancel_requested"
        then put_off
        else (if is_unfilled o.status then given_back o.filled_volume else settled)
    | none ↦
        let bought = add_volumes pb.group_no pb.ticker (f.of_ℕ 0) trades in
        if f.lt bought pb.volume then given_back bought else settled
  ]

  unfoldable pub sort_pending :
      Dict String (OrderRow R)
      → List (TradeRow R)
      → List (Pending R)
      → List (Pending R) × List (Pending R)
  unfolding pending_fate
  sort_pending rows trades [] = ([], [])
  sort_pending rows trades (pb ∷ rest) =
      sorted_out (pending_fate rows trades pb) pb (sort_pending rows trades rest)

  -- The budget, the tickers that were bought in the cycle, what stays pending, and the rows that are
  -- deleted.
  unfoldable pub reconcile :
      (Entry R → List (Entry R) → List (Entry R))
      → Template R
      → Option (List (OrderRow R))
      → Option (List (OrderRow R))
      → Option (List (TradeRow R))
      → List (Pending R)
      → List String
      → Book R
      → Book R × List String × List (Pending R) × List String
  unfolding sort_pending refund_cancelled_orders
  reconcile table t own replaced trades pending bought b =
      let known = (if any has_group pending then rows_of trades else []) in
      let rows = status_map own replaced in
      let (back, waiting) = sort_pending rows known pending in
      (
        if is_some_pending back then refund_cancelled_orders table t back b else b,
        remove_bought back bought,
        waiting,
        stale_rows rows pending,
      )

-- ===== src/Budget/Rows.antt =====
-- What `sync_single_strategy_budget_events` reads from the rows of `orders` and `trade_logs`: which are
-- linked, which are new, and what became of a pending purchase.
-- What became of a pending purchase: it is kept, refunded for what was not filled, or done.
use supabot.Base.{
  Bool, List, Option, String, [], false, if◌then◌else◌, ltb, none, not, some, string_eq, suc, true,
  zero, ℕ, ◌&&◌, ◌++◌, ◌==◌, ◌||◌, ◌∷◌,
}
use supabot.Base.Float.{Float, is_zero, ratio}
use supabot.Base.Dict.{Dict, erase, insert, lookup}
use supabot.Budget.Defs.{Book, OrderRow, Params, Pending, TradeRow, mem_text, text_or}

pub data Fate (R : Type 0) : Type 0 where
  keep done : Fate R
  refund : R → Fate R

-- The variables of the function that change.
pub record Run (R : Type 0) : Type 0 where
  pub book : Book R
  pub accounted : List String
  pub pending : Dict String (Pending R)
  pub dirty : Bool

abbrev pub is_dead : String → Bool
is_dead status = mem_text (text_or status "wait") ("cancel" ∷ "failed" ∷ "rejected" ∷ [])

-- `x or default` for a number.
abbrev pub number_or : Option ℕ → ℕ → ℕ
number_or none default = default
number_or (some zero) default = default
number_or (some (suc n)) default = suc n

module _ {R : Type 0} where
  -- `{str(o["uuid"]): o for o in open_orders if o.get("uuid")}`; a later row replaces an earlier one.
  abbrev pub orders_by_uuid :
      List (OrderRow R) → Dict String (OrderRow R) → Dict String (OrderRow R)
  orders_by_uuid [] d = d
  orders_by_uuid (o ∷ os) d = orders_by_uuid os (if o.uuid == "" then d else insert o.uuid o d)

  abbrev pub reorder_map : List (OrderRow R) → Dict String (OrderRow R) → Dict String (OrderRow R)
  reorder_map [] d = d
  reorder_map (o ∷ os) d =
      reorder_map os (if o.reorder_of == "" then d else insert o.reorder_of o d)

  abbrev pub pending_by_uuid : List (Pending R) → Dict String (Pending R) → Dict String (Pending R)
  pending_by_uuid [] d = d
  pending_by_uuid (o ∷ os) d = pending_by_uuid os (if o.uuid == "" then d else insert o.uuid o d)

  abbrev pub move_pending : String → String → Dict String (Pending R) → Dict String (Pending R)
  move_pending old new d = elim (lookup old d) [
    | none ↦ d
    | some o ↦ insert new (record o { uuid = new }) (erase old d)
  ]

  -- A new order in the place of one that is accounted for is accounted for as well.
  abbrev pub inherit : String → String → Run R → Run R
  inherit old new s =
      if mem_text old s.accounted && not (mem_text new s.accounted)
      then record s {
        accounted = s.accounted ++ new ∷ [];
        pending = move_pending old new s.pending;
        dirty = true;
      }
      else s

  abbrev pub inherit_all : Dict String (OrderRow R) → Run R → Run R
  inherit_all [] s = s
  inherit_all ((old, o) ∷ d) s = inherit_all d (inherit old o.uuid s)

  abbrev pub raise_group : ℕ → Params R → Params R
  raise_group g p =
      if ltb (number_or p.last_group_no 0) g then record p { last_group_no = some g } else p

  -- `o.get("group_no") or int(params.get("last_group_no") or 1)`
  abbrev pub group_of : Option ℕ → Params R → ℕ
  group_of g p = number_or g (number_or p.last_group_no 1)

module _ {R : Type 0} ⦃f : Float R⦄ where
  -- The volume of the purchases with a uuid.
  abbrev pub bid_volume : String → R → List (TradeRow R) → R
  bid_volume u sum [] = sum
  bid_volume u sum (tr ∷ trs) =
      bid_volume u (if tr.side == "bid" && tr.uuid == u then f.add sum tr.volume else sum) trs

  abbrev pub traded : String → List (TradeRow R) → R
  traded u trades = bid_volume u (f.of_ℕ 0) trades

  abbrev pub cost_of : R → R → R
  cost_of price volume = f.round (f.mul price volume)

module _ {R : Type 0} ⦃f : Float R⦄ where
  -- A row that is gone is done if its trades reach the volume, but for one in 10^8.
  abbrev pub fate_of : String → R → Option (OrderRow R) → List (TradeRow R) → Fate R
  fate_of u volume none trades =
      if f.lt (traded u trades) (f.sub volume (ratio 1 100_000_000))
      then refund (traded u trades)
      else done
  fate_of u volume (some o) trades =
      if is_dead o.status
      then refund (if is_zero o.filled_volume then traded u trades else o.filled_volume)
      else keep

  -- A purchase that the run has not charged yet and that may fill.
  abbrev pub is_chargeable : OrderRow R → List String → Bool
  is_chargeable o accounted =
      o.side == "bid"
      && (not (o.uuid == "") && not (mem_text o.uuid accounted))
      && (not (is_dead o.status) && not (f.le (cost_of o.price o.volume) (f.of_ℕ 0)))

  abbrev pub is_new_trade : TradeRow R → List String → Bool
  is_new_trade tr accounted =
      tr.side == "bid"
      && (not (tr.uuid == "") && not (mem_text tr.uuid accounted))
      && not (f.le (cost_of tr.price tr.volume) (f.of_ℕ 0))

  abbrev pub pending_of : OrderRow R → String → ℕ → ℕ → Pending R
  pending_of o ticker group epoch = record {
    uuid = o.uuid;
    ticker = ticker;
    price = o.price;
    volume = o.volume;
    group_no = some group;
    budget_epoch = epoch;
    filled_volume = f.of_ℕ 0;
  }

  abbrev pub kept_pending :
      Dict String (OrderRow R) → List (TradeRow R) → Dict String (Pending R) → List (Pending R)
  kept_pending orders trades [] = []
  kept_pending orders trades ((u, pb) ∷ d) =
      let rest = kept_pending orders trades d in
      elim (fate_of u pb.volume (lookup u orders) trades) [
        | keep ↦ pb ∷ rest
        | done ↦ rest
        | refund filled ↦ rest
      ]

  abbrev pub cancelled_to_refund :
      Dict String (OrderRow R) → List (TradeRow R) → Dict String (Pending R) → List (Pending R)
  cancelled_to_refund orders trades [] = []
  cancelled_to_refund orders trades ((u, pb) ∷ d) =
      let rest = cancelled_to_refund orders trades d in
      elim (fate_of u pb.volume (lookup u orders) trades) [
        | keep ↦ rest
        | done ↦ rest
        | refund filled ↦ record pb { filled_volume = filled } ∷ rest
      ]

  -- A pending purchase that is refunded or done is a change.
  abbrev pub is_settling :
      Dict String (OrderRow R) → List (TradeRow R) → Dict String (Pending R) → Bool
  is_settling orders trades [] = false
  is_settling orders trades ((u, pb) ∷ d) =
      elim (fate_of u pb.volume (lookup u orders) trades) [
        | keep ↦ false
        | done ↦ true
        | refund filled ↦ true
      ]
      || is_settling orders trades d

  abbrev pub proceeds_of : TradeRow R → R
  proceeds_of tr = f.round (f.sub (f.mul tr.price tr.volume) tr.fee_amount)

  abbrev pub is_new_sale : TradeRow R → List String → Bool
  is_new_sale tr recycled =
      tr.side == "ask"
      && (not (tr.uuid == "") && not (mem_text tr.uuid recycled))
      && f.lt (f.of_ℕ 0) (proceeds_of tr)

-- ===== src/Gate/Rules.antt =====
-- What an order that passes the gate is known to keep.
use supabot.Base.{
  ==_iff, All, Bool-cases, List, Option, String, [], any, arith, false, inl, inr, none, refl, some,
  string_eq, true, ℕ, ◌==◌, ◌∷◌, ◌≡◌, ◌≢◌, ◌⊎◌,
}
use supabot.Base.Float.{Float}
use supabot.Base.Int.{ltb_ℤ, pos, ℤ}
use supabot.Base.Text.{codes, same_codes}
use supabot.Orders.Defs.{Order}
use supabot.Gate.Halt.{Halt, Reading}
use supabot.Gate.Defs.{
  Prefs, Request, add_ticker_exposure, assert_single_strategy_per_ticker, check_can_place_order,
  get_strategy_family, is_conflict, is_exempt, is_top_universe_ticker,
}

-- An open order that leaves room for a strategy of the family on the ticker: it is for another
-- ticker, or by hand, or a stop, or of the same family.
abbrev pub LeavesRoom : {R : Type 0} → String → List ℕ → Order R → Type 0
LeavesRoom ticker family o =
    (o.ticker ≢ ticker)
    ⊎ (o.strategy ≡ "")
    ⊎ (o.strategy ≡ "manual")
    ⊎ (o.strategy ≡ "stoploss")
    ⊎ (same_codes (get_strategy_family o.strategy) family ≡ true)

leaves_room :
    {R : Type 0} (ticker : String) (family : List ℕ) (o : Order R)
    → is_conflict ticker family o ≡ false
    → LeavesRoom ticker family o
unfolding get_strategy_family
leaves_room ticker family o h = elim (Bool-cases (o.ticker == ticker)) [
  | inr other ↦ inl (λ e. cc (other, (==_iff o.ticker ticker).1 e))
  | inl here ↦ elim (Bool-cases (o.strategy == "")) [
    | inl e ↦ inr (inl ((==_iff o.strategy "").0 e))
    | inr e1 ↦ elim (Bool-cases (o.strategy == "manual")) [
      | inl e ↦ inr (inr (inl ((==_iff o.strategy "manual").0 e)))
      | inr e2 ↦ elim (Bool-cases (o.strategy == "stoploss")) [
        | inl e ↦ inr (inr (inr (inl ((==_iff o.strategy "stoploss").0 e))))
        | inr e3 ↦ inr (inr (inr (inr (ground arith))))
      ]
    ]
  ]
]

no_conflict :
    {R : Type 0} (ticker : String) (family : List ℕ) (orders : List (Order R))
    → any (is_conflict ticker family) orders ≡ false
    → All (LeavesRoom ticker family) orders
no_conflict ticker family [] h = tt
no_conflict ticker family (o ∷ os) h =
    (leaves_room ticker family o (ground arith), no_conflict ticker family os (ground arith))

module _ {R : Type 0} where
  -- A strategy that is admitted to a ticker runs alone on it: every open order is for another
  -- ticker, or by hand, or a stop, or of the same family; a ticker of the top universe is
  -- left to its own strategy; and where a schedule buys the ticker, the strategy is one of the
  -- schedules' family.
  pub admitted_alone :
      (orders : List (Order R)) (ticker strategy : String) (schedules : List String)
      (top : Option (List String))
      → ticker ≢ ""
      → is_exempt strategy ≡ false
      → assert_single_strategy_per_ticker orders (some ticker) strategy schedules top true ≡ none
      → let family = get_strategy_family strategy in
        All (LeavesRoom ticker family) orders
        × ((same_codes family (codes "kospi_top") ≡ true)
            ⊎ (is_top_universe_ticker ticker top ≡ false))
        × ((same_codes family (codes "dca") ≡ true) ⊎ (any (λ t. t == ticker) schedules ≡ false))
  unfolding assert_single_strategy_per_ticker
  admitted_alone orders ticker strategy schedules top named counted h =
      let family = get_strategy_family strategy in
      let conflicts : any (is_conflict ticker family) orders ≡ false =
        ground (arith, ==_iff ticker "") in
      (
        no_conflict ticker family orders conflicts,
        elim (Bool-cases (same_codes family (codes "kospi_top"))) [
          | inl own ↦ inl own
          | inr other ↦ inr (ground (arith, ==_iff ticker ""))
        ],
        elim (Bool-cases (same_codes family (codes "dca"))) [
          | inl own ↦ inl own
          | inr other ↦ inr (ground (arith, ==_iff ticker ""))
        ],
      )

-- The orders of the day are fewer than the limit, where there is one.
abbrev pub IsFewer : ℕ → Option ℤ → Type 0
IsFewer n none = Unit
IsFewer n (some most) = ltb_ℤ (pos n) most ≡ true

module _ {R : Type 0} ⦃f : Float R⦄ where
  -- A loss that the limit is not at most, and an exposure that is not above its cap.
  abbrev pub IsSmaller : R → Option R → Type 0
  IsSmaller loss none = Unit
  IsSmaller loss (some most) = f.le most loss ≡ false

  abbrev pub HasRoom : R → Option R → Type 0
  HasRoom exposure none = Unit
  HasRoom exposure (some cap) = f.lt cap exposure ≡ false

  -- What the purchases of the ticker among the open orders are worth, with the new one.
  abbrev pub TickerHasRoom : Option String → R → List (Order R) → Option R → Type 0
  TickerHasRoom none new orders cap = Unit
  TickerHasRoom (some ticker) new orders cap =
      (ticker ≡ "") ⊎ HasRoom (f.add (add_ticker_exposure ticker (f.of_ℕ 0) orders) new) cap

  -- A sale at a stop passes the gate whatever the state, the limits and the counts are.
  pub stop_passes :
      (reading : Reading) (now : ℕ) (prefs : Prefs R) (orders : List (Order R)) (r : Request R)
      (h : Halt)
      → r.strategy ≡ "stoploss"
      → check_can_place_order reading now prefs orders r h ≡ (none, h)
  unfolding check_can_place_order
  stop_passes reading now prefs orders r h e = rw e refl

-- ===== src/Daily/Net.antt =====
-- The holdings by the trades, in whole shares.
use supabot.Base.{
  ==_iff, ==_self, Bool-cases, List, Option, String, [], ap, arith, false, if◌then◌else◌, inl, inr,
  none, refl, some, string_eq, subst, true, ◌==◌, ◌∙◌, ◌∷◌, ◌≡◌, ◌⊎◌,
}
use supabot.Base.Float.{fmax, int_float}
use supabot.Base.Int.{ -ℤ_parts, leb_ℤ, ltb_ℤ, pos, ℤ, ◌+ℤ◌, ◌-ℤ◌, ◌≤ℤ◌}
use supabot.Base.Dict.{Dict, insert, lookup, lookup-insert}
use supabot.Budget.Defs.{TradeRow, value_or}
use supabot.Daily.Defs.{Holding}
use supabot.Daily.Holdings.{
  book_trade, book_trades, bought_more, close_holdings, empty_holding, get_template_holdings,
  sold_some,
}

abbrev pub qty_in : Option (Holding ℤ) → ℤ
qty_in none = pos 0
qty_in (some h) = h.qty

-- The quantity after a trade.
abbrev pub moved : String → ℤ → TradeRow ℤ → ℤ
moved code q tr =
    if tr.ticker == code then (if tr.side == "bid" then q +ℤ tr.volume else q -ℤ tr.volume) else q

-- The net quantity of a ticker, from `q` on: what is bought less what is sold.
abbrev pub net : String → ℤ → List (TradeRow ℤ) → ℤ
net code q [] = q
net code q (tr ∷ trs) = net code (moved code q tr) trs

-- No sale of the ticker is of more than is held then, and nothing is sold when nothing is held.
abbrev pub IsCoveredBy : ℤ → TradeRow ℤ → Type 0
IsCoveredBy q tr = (tr.side == "bid") ≡ true ⊎ ((tr.volume ≤ℤ q) × (ltb_ℤ (pos 0) q ≡ true))

abbrev pub AllCoveredBy : String → ℤ → List (TradeRow ℤ) → Type 0
AllCoveredBy code q [] = Unit
AllCoveredBy code q (tr ∷ trs) =
    ((tr.ticker == code) ≡ false ⊎ IsCoveredBy q tr) × AllCoveredBy code (moved code q tr) trs

not_there : {h : Holding ℤ} → some h ≡ none → ⊥
not_there e = cc

nothing_held : (q : ℤ) → leb_ℤ q (pos 0) ≡ true → pos 0 ≡ fmax (pos 0) q
nothing_held q h = ground arith

something_held : (q : ℤ) → leb_ℤ q (pos 0) ≡ false → q ≡ fmax (pos 0) q
something_held q h = ground arith

held_after : (q v : ℤ) → v ≤ℤ q → fmax (pos 0) (q -ℤ v) ≡ q -ℤ v
held_after q v h = ground (arith, -ℤ_parts q v)

qty_in-value_or : (o : Option (Holding ℤ)) → (value_or o empty_holding).qty ≡ qty_in o
qty_in-value_or none = refl
qty_in-value_or (some h) = refl

sold_some_lem :
    (tr : TradeRow ℤ) (h : Holding ℤ) (q : ℤ)
    → h.qty ≡ q
    → tr.volume ≤ℤ q
    → ltb_ℤ (pos 0) q ≡ true
    → (sold_some tr h).qty ≡ q -ℤ tr.volume
sold_some_lem tr h q e enough some_held =
    let held : ltb_ℤ (pos 0) h.qty ≡ true = rw e some_held in
    rw held (rw e (held_after q tr.volume enough))

-- One trade of the ticker.
book_trade_here :
    (tr : TradeRow ℤ) (d : Dict String (Holding ℤ))
    → IsCoveredBy (qty_in (lookup tr.ticker d)) tr
    → qty_in (lookup tr.ticker (book_trade tr d)) ≡ (
        if tr.side == "bid"
        then qty_in (lookup tr.ticker d) +ℤ tr.volume
        else qty_in (lookup tr.ticker d) -ℤ tr.volume)
book_trade_here tr d covered =
    let h = value_or (lookup tr.ticker d) empty_holding in
    rw
      (
        lookup-insert tr.ticker tr.ticker
            (if tr.side == "bid" then bought_more tr h else sold_some tr h) d,
        ==_self tr.ticker,
      )
      (elim (Bool-cases (tr.side == "bid")) [
        | inl buy ↦ rw buy (rw (qty_in-value_or (lookup tr.ticker d)) refl)
        | inr sale ↦ elim covered [
          | inl buy ↦ cc
          | inr enough ↦ rw sale (
              sold_some_lem tr h (qty_in (lookup tr.ticker d))
                (qty_in-value_or (lookup tr.ticker d)) enough.0 enough.1)
        ]
      ])

book_trade_elsewhere :
    (code : String) (tr : TradeRow ℤ) (d : Dict String (Holding ℤ))
    → (tr.ticker == code) ≡ false
    → lookup code (book_trade tr d) ≡ lookup code d
book_trade_elsewhere code tr d other =
    let h = value_or (lookup tr.ticker d) empty_holding in
    rw
      (
        lookup-insert tr.ticker code (if tr.side == "bid" then bought_more tr h else sold_some tr h)
            d,
        other,
      )
      refl

book_trade-net :
    (code : String) (tr : TradeRow ℤ) (d : Dict String (Holding ℤ))
    → (tr.ticker == code) ≡ false ⊎ IsCoveredBy (qty_in (lookup code d)) tr
    → qty_in (lookup code (book_trade tr d)) ≡ moved code (qty_in (lookup code d)) tr
book_trade-net code tr d covered = elim (Bool-cases (tr.ticker == code)) [
  | inl here ↦ rw here (elim covered [
    | inl elsewhere ↦ cc
    | inr enough ↦
        subst
          (λ c.
            IsCoveredBy (qty_in (lookup c d)) tr
            → qty_in (lookup c (book_trade tr d)) ≡ (
                if tr.side == "bid"
                then qty_in (lookup c d) +ℤ tr.volume
                else qty_in (lookup c d) -ℤ tr.volume))
          ((==_iff tr.ticker code).0 here) (book_trade_here tr d) enough
  ])
  | inr other ↦ rw other (ap qty_in (book_trade_elsewhere code tr d other))
]

held-net :
    (code : String) (trs : List (TradeRow ℤ)) (d : Dict String (Holding ℤ))
    → AllCoveredBy code (qty_in (lookup code d)) trs
    → qty_in (lookup code (book_trades trs d)) ≡ net code (qty_in (lookup code d)) trs
unfolding book_trades
held-net code [] d h = refl
held-net code (tr ∷ trs) d h =
    let e = book_trade-net code tr d h.0 in
    held-net code trs (book_trade tr d) (rw e h.1) ∙ ap (λ q. net code q trs) e

-- The keys are different.
abbrev IsDistinct : Dict String (Holding ℤ) → Type 0
IsDistinct [] = Unit
IsDistinct ((k, h) ∷ d) = (lookup k d ≡ none) × IsDistinct d

insert-IsDistinct :
    (k : String) (h : Holding ℤ) (d : Dict String (Holding ℤ))
    → IsDistinct d
    → IsDistinct (insert k h d)
insert-IsDistinct k h [] u = (refl, tt)
insert-IsDistinct k h ((j, g) ∷ d) u = elim (Bool-cases (j == k)) [
  | inl same ↦ rw same u
  | inr other ↦ rw other (
    rw (lookup-insert k j h d) (ground (arith, ==_iff k j, ==_iff j k, u.0)),
    insert-IsDistinct k h d u.1,
  )
]

book_trades-IsDistinct :
    (trs : List (TradeRow ℤ)) (d : Dict String (Holding ℤ))
    → IsDistinct d
    → IsDistinct (book_trades trs d)
unfolding book_trades
book_trades-IsDistinct [] d u = u
book_trades-IsDistinct (tr ∷ trs) d u =
    book_trades-IsDistinct trs (book_trade tr d) (insert-IsDistinct tr.ticker _ d u)

close_missing :
    (code : String) (d : Dict String (Holding ℤ))
    → lookup code d ≡ none
    → lookup code (close_holdings d) ≡ none
close_missing code [] h = refl
close_missing code ((k, g) ∷ d) h = elim (Bool-cases (k == code)) [
  | inl here ↦ absurd (not_there (rw here at h))
  | inr other ↦ elim (Bool-cases (leb_ℤ g.qty (pos 0))) [
    | inl empty ↦ rw empty (close_missing code d (rw other at h))
    | inr kept ↦ rw (kept, other) (close_missing code d (rw other at h))
  ]
]

close-qty :
    (code : String) (d : Dict String (Holding ℤ))
    → IsDistinct d
    → qty_in (lookup code (close_holdings d)) ≡ fmax (pos 0) (qty_in (lookup code d))
close-qty code [] u = refl
close-qty code ((k, g) ∷ d) u = elim (Bool-cases (leb_ℤ g.qty (pos 0))) [
  | inl empty ↦ elim (Bool-cases (k == code)) [
    | inl here ↦
        rw (empty, here)
          (rw (close_missing code d (subst (λ c. lookup c d ≡ none) ((==_iff k code).0 here) u.0))
            (nothing_held g.qty empty))
    | inr other ↦ rw (empty, other) (close-qty code d u.1)
  ]
  | inr kept ↦ elim (Bool-cases (k == code)) [
    | inl here ↦ rw (kept, here) (something_held g.qty kept)
    | inr other ↦ rw (kept, other) (close-qty code d u.1)
  ]
]

-- In whole shares, for trades that never sell more of the ticker than is held: the holdings of a
-- strategy show of the ticker what was bought less what was sold, or nothing if that is not positive.
pub get_template_holdings-net :
    (code : String) (trades : List (TradeRow ℤ))
    → AllCoveredBy code (pos 0) trades
    → qty_in (lookup code (get_template_holdings (some trades)))
      ≡ fmax (pos 0) (net code (pos 0) trades)
unfolding get_template_holdings
get_template_holdings-net code trades covered =
    close-qty code (book_trades trades []) (book_trades-IsDistinct trades [] tt)
    ∙ ap (λ q. fmax (pos 0) q) (held-net code trades [] covered)

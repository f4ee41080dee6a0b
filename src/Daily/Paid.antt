-- ===== src/Daily/Paid.antt =====
-- The money of a day, on whole amounts.
-- What a list of orders costs or brings in.
use supabot.Base.{
  Bool, Bool-cases, List, Option, String, [], arith, false, if◌then◌else◌, inl, inr, leb, map, max,
  none, not, refl, some, string_eq, suc, sym, true, zero, ℕ, ◌&&◌, ◌++◌, ◌+◌, ◌∙◌, ◌∷◌, ◌≡◌,
}
use supabot.Base.Float.{int_float}
use supabot.Base.Int.{+ℤ_parts, -ℤ_parts, eq_of_parts, leb_ℤ, ltb_ℤ, pos, ℤ, ◌*ℤ◌, ◌+ℤ◌, ◌-ℤ◌, ◌≤ℤ◌}
use supabot.Base.Dict.{Dict, contains, lookup}
use supabot.Budget.Defs.{mem_text, value_or}
use supabot.Daily.Defs.{
  DayOrder, Holding, Item, Progress, Ranked, Settings, State, Waiting, fill_prices, ranked_of,
  ranks, settings_of,
}
use supabot.Daily.Sell.{
  Place, Shop, confirm_exit, outside, place_of, promoted, sell_exits, sell_one, sell_part,
  sell_placed, sell_qty, sell_queued, target, tolerated,
}
use supabot.Daily.Buy.{
  Cart, Rounds, after_round, buy_item, buy_round, buy_rounds, is_affordable, is_complete,
  target_qty,
}
use supabot.Daily.Step.{cart_of, master_of, shop_of, step_single_day}

abbrev pub worth : List (DayOrder ℤ) → ℤ
worth [] = pos 0
worth (o ∷ os) = o.cost +ℤ worth os

add_assoc : (a b c : ℤ) → a +ℤ (b +ℤ c) ≡ a +ℤ b +ℤ c
add_assoc a b c =
    eq_of_parts (a +ℤ (b +ℤ c)) (a +ℤ b +ℤ c)
      (omega (arith, +ℤ_parts a (b +ℤ c), +ℤ_parts b c, +ℤ_parts a b, +ℤ_parts (a +ℤ b) c))

worth-append : (os : List (DayOrder ℤ)) (o : DayOrder ℤ) → worth (os ++ o ∷ []) ≡ worth os +ℤ o.cost
worth-append [] o =
    eq_of_parts (o.cost +ℤ pos 0) (pos 0 +ℤ o.cost)
      (omega (arith, +ℤ_parts o.cost (pos 0), +ℤ_parts (pos 0) o.cost))
worth-append (x ∷ os) o = rw (worth-append os o) (add_assoc x.cost (worth os) o.cost)

-- The balance, the sum spent and the purchases, against those at the start.
abbrev pub IsPaid : ℤ → ℤ → Cart ℤ → Type 0
IsPaid start spent c =
    (c.carryover +ℤ worth c.buys ≡ start)
    × (c.spent ≡ spent +ℤ worth c.buys)
    × (pos 0 ≤ℤ c.carryover)

paid_on : (c w k start : ℤ) → c +ℤ w ≡ start → (c -ℤ k) +ℤ (w +ℤ k) ≡ start
paid_on c w k start h =
    eq_of_parts ((c -ℤ k) +ℤ (w +ℤ k)) start
      (ground (arith, +ℤ_parts (c -ℤ k) (w +ℤ k), -ℤ_parts c k, +ℤ_parts w k, +ℤ_parts c w))

spent_on : (s spent w k : ℤ) → s ≡ spent +ℤ w → s +ℤ k ≡ spent +ℤ (w +ℤ k)
spent_on s spent w k h = rw h (sym (add_assoc spent w k))

afforded : (c k : ℤ) → is_affordable k c ≡ true → pos 0 ≤ℤ c -ℤ k
afforded c k h = ground (arith, +ℤ_parts c (pos 0), -ℤ_parts c k)

module _ (s : Settings ℤ) (prices : Dict String ℤ) (start spent : ℤ) where
  buy_item-IsPaid :
      (cycle : ℕ) (price : ℤ) (i : Item ℤ) (c : Cart ℤ)
      → is_affordable (target_qty s price *ℤ price) c.carryover ≡ true
      → IsPaid start spent c
      → IsPaid start spent (buy_item s cycle price i c)
  buy_item-IsPaid cycle price i c affordable h =
      let k = target_qty s price *ℤ price in
      rw (worth-append c.buys _) (
        paid_on c.carryover (worth c.buys) k start h.0,
        spent_on c.spent spent (worth c.buys) k h.1,
        afforded c.carryover k affordable,
      )

  buy_round-IsPaid :
      (cycle : ℕ) (is : List (Item ℤ)) (c : Cart ℤ)
      → IsPaid start spent c
      → IsPaid start spent (buy_round s cycle prices is c).0
  unfolding buy_round
  buy_round-IsPaid cycle [] c h = h
  buy_round-IsPaid cycle (i ∷ is) c h =
      let price = value_or (lookup i.code prices) i.price in
      elim (Bool-cases (mem_text i.code c.bought)) [
        | inl owned ↦ rw owned (buy_round-IsPaid cycle is c h)
        | inr wanted ↦
            rw wanted (elim (Bool-cases (is_affordable (target_qty s price *ℤ price) c.carryover)) [
              | inl affordable ↦ rw affordable (
                  buy_round-IsPaid cycle is (buy_item s cycle price i c)
                    (buy_item-IsPaid cycle price i c affordable h))
              | inr short ↦ rw short h
            ])
      ]

  after_round-IsPaid :
      (is : List (Item ℤ)) (cycle : ℕ) (skipped : List String) (c : Cart ℤ) (w : Option (Waiting ℤ))
      (again : Rounds ℤ)
      → IsPaid start spent c
      → IsPaid start spent again.cart
      → IsPaid start spent (after_round is cycle skipped c w again).cart
  after_round-IsPaid is cycle skipped c (some w) again h more = h
  after_round-IsPaid is cycle skipped c none again h more =
      elim (Bool-cases (not (is_complete is skipped c.bought))) [
        | inl open_cycle ↦ rw open_cycle h
        | inr complete ↦ rw complete (elim (Bool-cases (leb_ℤ c.carryover (pos 1_000))) [
          | inl little ↦ rw little h
          | inr enough ↦ rw enough more
        ])
      ]

  pub buy_rounds-IsPaid :
      (n : ℕ) (is : List (Item ℤ)) (cycle : ℕ) (skipped : List String) (c : Cart ℤ)
      → IsPaid start spent c
      → IsPaid start spent (buy_rounds n s prices is cycle skipped c).cart
  unfolding buy_rounds
  buy_rounds-IsPaid zero is cycle skipped c h = h
  buy_rounds-IsPaid (suc n) is cycle skipped c h =
      let r = buy_round s cycle prices is c in
      let next : Cart ℤ = record r.0 { bought = [] } in
      let paid = buy_round-IsPaid cycle is c h in
      after_round-IsPaid is cycle skipped r.0 r.1 (buy_rounds n s prices is (cycle + 1) [] next)
        paid (buy_rounds-IsPaid n is (cycle + 1) [] next paid)

-- What sales bring in at once.
abbrev pub proceeds : Bool → List (DayOrder ℤ) → ℤ
proceeds at_once os = if at_once then worth os else pos 0

sold_on :
    (at_once : Bool) (start c k : ℤ) (os : List (DayOrder ℤ)) (o : DayOrder ℤ)
    → o.cost ≡ k
    → c ≡ start +ℤ proceeds at_once os
    → (if at_once then c +ℤ k else c) ≡ start +ℤ proceeds at_once (os ++ o ∷ [])
sold_on true start c k os o e h = rw (worth-append os o, e) (spent_on c start (worth os) k h)
sold_on false start c k os o e h = h

module _ (s : Settings ℤ) (cycle : ℕ) (is_dry_run : Bool) (start : ℤ) where
  abbrev pub IsPaidOut : Shop ℤ → Type 0
  IsPaidOut d = d.carryover ≡ start +ℤ proceeds (is_dry_run && s.recycles) d.sells

  sell_part-IsPaidOut :
      (code : String) (price : ℤ) (h : Holding ℤ) (p : Progress ℤ) (d : Shop ℤ)
      → IsPaidOut d
      → IsPaidOut (sell_part s cycle is_dry_run code price h p d)
  sell_part-IsPaidOut code price h p d paid =
      let volume = sell_qty h.qty (max 1 p.remaining_days) in
      elim (Bool-cases (ltb_ℤ (pos 0) volume)) [
        | inr nothing ↦ rw nothing paid
        | inl some_sold ↦ rw some_sold (
            sold_on (is_dry_run && s.recycles) start d.carryover (volume *ℤ price) d.sells _ refl
              paid)
      ]

  confirm_exit-IsPaidOut :
      (code : String) (qty : ℤ) (d : Shop ℤ) → IsPaidOut d → IsPaidOut (confirm_exit s code qty d)
  confirm_exit-IsPaidOut code qty d paid = elim (Bool-cases (contains code d.progress)) [
    | inl queued ↦ rw queued paid
    | inr new ↦
        rw new (elim (Bool-cases (leb s.confirm_days (value_or (lookup code d.streaks) 0 + 1))) [
          | inl confirmed ↦ rw confirmed paid
          | inr waits ↦ rw waits paid
        ])
  ]

  sell_queued-IsPaidOut :
      (code : String) (price : ℤ) (h : Holding ℤ) (p : Option (Progress ℤ)) (d : Shop ℤ)
      → IsPaidOut d
      → IsPaidOut (sell_queued s cycle is_dry_run code price h p d)
  sell_queued-IsPaidOut code price h none d paid = paid
  sell_queued-IsPaidOut code price h (some p) d paid = sell_part-IsPaidOut code price h p d paid

  sell_placed-IsPaidOut :
      (code : String) (price : ℤ) (h : Holding ℤ) (place : Place) (d : Shop ℤ)
      → IsPaidOut d
      → IsPaidOut (sell_placed s cycle is_dry_run code price h place d)
  sell_placed-IsPaidOut code price h target d paid = paid
  sell_placed-IsPaidOut code price h promoted d paid = paid
  sell_placed-IsPaidOut code price h tolerated d paid = paid
  sell_placed-IsPaidOut code price h outside d paid =
      let d' = confirm_exit s code h.qty d in
      sell_queued-IsPaidOut code price h (lookup code d'.progress) d'
        (confirm_exit-IsPaidOut code h.qty d paid)

  sell_one-IsPaidOut :
      (rank_map : Dict String ℕ) (prices : Dict String ℤ) (targets : List String) (code : String)
      (h : Holding ℤ) (d : Shop ℤ)
      → IsPaidOut d
      → IsPaidOut (sell_one s cycle is_dry_run rank_map prices targets code h d)
  sell_one-IsPaidOut rank_map prices targets code h d paid =
      elim (Bool-cases (ltb_ℤ (pos 0) h.qty)) [
        | inr empty ↦ rw empty paid
        | inl held ↦ rw held (
            sell_placed-IsPaidOut code (value_or (lookup code prices) h.avg_price) h
              (place_of s (mem_text code targets) (value_or (lookup code rank_map) 9_999)) d paid)
      ]

  pub sell_exits-IsPaidOut :
      (rank_map : Dict String ℕ) (prices : Dict String ℤ) (targets : List String)
      (hs : Dict String (Holding ℤ)) (d : Shop ℤ)
      → IsPaidOut d
      → IsPaidOut (sell_exits s cycle is_dry_run rank_map prices targets hs d)
  unfolding sell_exits
  sell_exits-IsPaidOut rank_map prices targets [] d paid = paid
  sell_exits-IsPaidOut rank_map prices targets ((code, h) ∷ hs) d paid =
      sell_exits-IsPaidOut rank_map prices targets hs
        (sell_one s cycle is_dry_run rank_map prices targets code h d)
        (sell_one-IsPaidOut rank_map prices targets code h d paid)

nothing_sold : (c : ℤ) (at_once : Bool) → c ≡ c +ℤ proceeds at_once []
nothing_sold c true = eq_of_parts c (c +ℤ pos 0) (omega (arith, +ℤ_parts c (pos 0)))
nothing_sold c false = eq_of_parts c (c +ℤ pos 0) (omega (arith, +ℤ_parts c (pos 0)))

nothing_bought : (c : ℤ) → c +ℤ pos 0 ≡ c
nothing_bought c = eq_of_parts (c +ℤ pos 0) c (omega (arith, +ℤ_parts c (pos 0)))

-- On whole amounts, where the balance with the sales that a dry run recycles is not negative: after
-- a day, the balance and what was bought make up the old balance and those sales, the sum
-- spent in the month has grown by what was bought, and the balance is not negative.
pub step_single_day_paid :
    (s : State ℤ) (date : String) (targets : List (Item ℤ))
    (master_items : Option (List (Ranked ℤ))) (price_map : Dict String ℤ) (is_dry_run : Bool)
    → pos 0
      ≤ℤ value_or s.carryover_budget (pos 0)
        +ℤ proceeds
            (is_dry_run && (settings_of s date).recycles)
            (step_single_day s date targets master_items price_map is_dry_run).sells
    → let r = step_single_day s date targets master_items price_map is_dry_run in
      let recycled = proceeds (is_dry_run && (settings_of s date).recycles) r.sells in
      let after = value_or r.state.carryover_budget (pos 0) in
      (after +ℤ worth r.buys ≡ value_or s.carryover_budget (pos 0) +ℤ recycled)
      × (value_or r.state.monthly_spent (pos 0) ≡ value_or s.monthly_spent (pos 0) +ℤ worth r.buys)
      × (pos 0 ≤ℤ after)
unfolding step_single_day
step_single_day_paid s date targets master_items price_map is_dry_run enough =
    let settings = settings_of s date in
    let cycle = value_or s.cycle_no 1 in
    let master = master_of master_items targets in
    let prices = fill_prices (master ++ map ranked_of targets) price_map in
    let codes_of = map (λ (i : Item ℤ). i.code) targets in
    let d =
      sell_exits settings cycle is_dry_run (ranks master []) prices codes_of s.holdings
        (shop_of s) in
    let before = value_or s.carryover_budget (pos 0) in
    let paid_out : d.carryover ≡ before +ℤ proceeds (is_dry_run && settings.recycles) d.sells =
      sell_exits-IsPaidOut settings cycle is_dry_run before (ranks master []) prices codes_of
        s.holdings (shop_of s) (nothing_sold before (is_dry_run && settings.recycles)) in
    buy_rounds-IsPaid settings prices _ _ 50 targets cycle s.skipped_untradable (cart_of s d)
      (nothing_bought d.carryover ∙ paid_out, sym (nothing_bought _), rw paid_out enough)

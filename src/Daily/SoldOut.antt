-- ===== src/Daily/SoldOut.antt =====
-- A holding that is being sold, day after day outside the range, in whole shares.
use supabot.Base.{
  ==_self, Bool, Bool-cases, List, Option, String, [], ap, arith, if◌then◌else◌, inl, inr, max,
  none, refl, some, string_eq, suc, true, ℕ, ◌++◌, ◌-◌, ◌<◌, ◌∷◌, ◌≡◌, ◌≤◌, ◌⊎◌,
}
use supabot.Base.Float.{fmax, int_float}
use supabot.Base.Int.{+ℤ_parts, -ℤ_parts, eq_of_parts, ltb_ℤ, pos, pos_part, ℤ, ◌+ℤ◌, ◌-ℤ◌}
use supabot.Base.Dict.{lookup, lookup-insert}
use supabot.Daily.Defs.{DayOrder, Holding, Progress, Settings}
use supabot.Daily.Sell.{Shop, outside, sell_part, sell_placed, sell_qty, sold_off}

part_bounds :
    (n d : ℕ)
    → 0 < n
    → let w = pos_part (sell_qty (pos n) d) in (sell_qty (pos n) d ≡ pos w) × (0 < w) × (w ≤ n)
part_bounds n d h = ground arith

last_part : (n : ℕ) → 0 < n → sell_qty (pos n) 1 ≡ pos n
last_part n h = ground arith

-- What is left of a whole number of shares.
left_of : (n w : ℕ) → w ≤ n → fmax (pos 0) (pos n -ℤ pos w) ≡ pos (n - w)
left_of n w h = ground (arith, -ℤ_parts (pos n) (pos w))

pub pos_is_some : (w : ℕ) → 0 < w → ltb_ℤ (pos 0) (pos w) ≡ true
pos_is_some w h = ground arith

sold_off_cases : (m r : ℕ) → sold_off (pos m) r ≡ true → (m ≡ 0) ⊎ (r ≡ 0)
sold_off_cases m r h = ground arith

-- The volume of a list of orders.
abbrev pub volume_of : List (DayOrder ℤ) → ℤ
volume_of [] = pos 0
volume_of (o ∷ os) = o.volume +ℤ volume_of os

volume_of-append :
    (os : List (DayOrder ℤ)) (o : DayOrder ℤ) → volume_of (os ++ o ∷ []) ≡ volume_of os +ℤ o.volume
volume_of-append [] o =
    eq_of_parts (o.volume +ℤ pos 0) (pos 0 +ℤ o.volume)
      (omega (arith, +ℤ_parts o.volume (pos 0), +ℤ_parts (pos 0) o.volume))
volume_of-append (x ∷ os) o =
    let t = volume_of os in
    rw (volume_of-append os o) (
      eq_of_parts (x.volume +ℤ (t +ℤ o.volume)) (x.volume +ℤ t +ℤ o.volume) (
        omega (
          arith,
          +ℤ_parts x.volume (t +ℤ o.volume),
          +ℤ_parts t o.volume,
          +ℤ_parts x.volume t,
          +ℤ_parts (x.volume +ℤ t) o.volume,
        )))

module _ (s : Settings ℤ) (cycle : ℕ) (is_dry_run : Bool) (code : String) where
  -- A day on which the holding is outside the range: part one of the step, on this holding.
  abbrev pub sell_today : ℤ → Option (Holding ℤ) → Shop ℤ → Shop ℤ
  sell_today price none d = d
  sell_today price (some h) d =
      if ltb_ℤ (pos 0) h.qty then sell_placed s cycle is_dry_run code price h outside d else d

  -- One price for each day.
  abbrev pub sell_days : List ℤ → Shop ℤ → Shop ℤ
  sell_days [] d = d
  sell_days (price ∷ prices) d = sell_days prices (sell_today price (lookup code d.holdings) d)

  -- The holding has `n` shares.
  abbrev pub HasShares : ℕ → Shop ℤ → Type 0
  HasShares n d = (h : Holding ℤ) × (lookup code d.holdings ≡ some h) × (h.qty ≡ pos n)

  -- It is to be sold within `r` days.
  abbrev pub IsQueued : ℕ → Shop ℤ → Type 0
  IsQueued r d = (p : Progress ℤ) × (lookup code d.progress ≡ some p) × (p.remaining_days ≡ r)

  pub stays_empty : (prices : List ℤ) (d : Shop ℤ) → HasShares 0 d → sell_days prices d ≡ d
  stays_empty [] d h = refl
  stays_empty (price ∷ prices) d h =
      let same : sell_today price (lookup code d.holdings) d ≡ d = rw h.1 (rw h.2 refl) in
      rw same (stays_empty prices d h)

-- One part of a sale, of `n` shares with the days `suc r`.
module _ (s : Settings ℤ) (cycle : ℕ) (is_dry_run : Bool) (code : String) (price : ℤ)
    (h : Holding ℤ) (p : Progress ℤ) (n r : ℕ) (d : Shop ℤ) (held : h.qty ≡ pos n)
    (some_left : 0 < n) (days : p.remaining_days ≡ suc r) where
  abbrev pub part : ℕ
  part = pos_part (sell_qty (pos n) (suc r))

  abbrev volume : ℤ
  volume = sell_qty h.qty (max 1 p.remaining_days)

  abbrev pub after : Shop ℤ
  after = sell_part s cycle is_dry_run code price h p d

  days_now : max 1 p.remaining_days ≡ suc r
  days_now = rw days (omega arith)

  volume_lem : volume ≡ pos part
  volume_lem = rw (days_now, held) (part_bounds n (suc r) some_left).0

  is_sold : ltb_ℤ (pos 0) volume ≡ true
  is_sold = rw volume_lem (pos_is_some part (part_bounds n (suc r) some_left).1)

  pub part-le : part ≤ n
  part-le = (part_bounds n (suc r) some_left).2

  left_lem : fmax (pos 0) (h.qty -ℤ volume) ≡ pos (n - part)
  left_lem = rw (volume_lem, held) (left_of n part part-le)

  pub part-HasShares : HasShares s cycle is_dry_run code (n - part) after
  part-HasShares = (
    record h { qty = fmax (pos 0) (h.qty -ℤ volume) },
    rw is_sold (
        rw
          (
            lookup-insert code code (record h { qty = fmax (pos 0) (h.qty -ℤ volume) }) d.holdings,
            ==_self code,
          )
          refl),
    left_lem,
  )

  pub volume_of-part : volume_of after.sells ≡ volume_of d.sells +ℤ pos part
  volume_of-part = rw is_sold (rw (volume_of-append d.sells _, volume_lem) refl)

  pub last_day : r ≡ 0 → n - part ≡ 0
  last_day e =
      let all_of_it : sell_qty (pos n) (suc r) ≡ pos n = rw e (last_part n some_left) in
      let whole : part ≡ n = ap pos_part all_of_it in omega (arith, whole)

  -- It is sold out, or waits for its next day.
  pub part-IsQueued : (n - part ≡ 0) ⊎ IsQueued s cycle is_dry_run code r after
  part-IsQueued =
      let left = fmax (pos 0) (h.qty -ℤ volume) in
      let next : Progress ℤ = record p {
        remaining_days = max 1 p.remaining_days - 1;
        last_sell_date = s.date;
      } in
      let rest : max 1 p.remaining_days - 1 ≡ r = rw days_now (omega arith) in
      elim (Bool-cases (sold_off left (max 1 p.remaining_days - 1))) [
        | inl done ↦ elim (sold_off_cases (n - part) r (rw (left_lem, rest) at done)) [
          | inl none_left ↦ inl none_left
          | inr last ↦ inl (last_day last)
        ]
        | inr more ↦ inr (
          next,
          rw (is_sold, more) (rw (lookup-insert code code next d.progress, ==_self code) refl),
          rest,
        )
      ]

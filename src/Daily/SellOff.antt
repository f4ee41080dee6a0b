-- ===== src/Daily/SellOff.antt =====
-- The days of a sale, up to its end.
use supabot.Base.{
  Bool, Bool-cases, List, Option, String, [], arith, false, inl, inr, length, ltb, ltb→lt, none,
  refl, some, string_eq, subst, suc, sym, true, ℕ, ◌-◌, ◌<◌, ◌∙◌, ◌∷◌, ◌≡◌, ◌≤◌, ◌⊎◌,
}
use supabot.Base.Float.{int_float}
use supabot.Base.Int.{+ℤ_parts, eq_of_parts, ltb_ℤ, pos, ℤ, ◌+ℤ◌}
use supabot.Base.Dict.{contains, lookup}
use supabot.Daily.Defs.{Holding, Progress, Settings}
use supabot.Daily.Sell.{Shop, confirm_exit, sell_part}
use supabot.Daily.SoldOut.{
  HasShares, IsQueued, last_day, part, part-HasShares, part-IsQueued, part-le, pos_is_some,
  sell_days, sell_today, stays_empty, volume_of, volume_of-part,
}

module _ (s : Settings ℤ) (cycle : ℕ) (is_dry_run : Bool) (code : String) where
  has_some : (h : Holding ℤ) (n : ℕ) → h.qty ≡ pos n → 0 < n → ltb_ℤ (pos 0) h.qty ≡ true
  has_some h n e some_left = rw e (pos_is_some n some_left)

  contains_some :
      (o : Option (Progress ℤ)) (p : Progress ℤ)
      → o ≡ some p
      → elim o as (λ x. Bool) [ none ↦ false | some q ↦ true ] ≡ true
  contains_some none p e = cc
  contains_some (some q) p e = refl

  confirm_exit_queued :
      (qty : ℤ) (d : Shop ℤ) → contains code d.progress ≡ true → confirm_exit s code qty d ≡ d
  confirm_exit_queued qty d e = rw e refl

  -- A holding that is queued and not empty has one part of it sold.
  today_part :
      (price : ℤ) (h : Holding ℤ) (p : Progress ℤ) (d : Shop ℤ)
      → lookup code d.holdings ≡ some h
      → lookup code d.progress ≡ some p
      → ltb_ℤ (pos 0) h.qty ≡ true
      → sell_today s cycle is_dry_run code price (lookup code d.holdings) d
        ≡ sell_part s cycle is_dry_run code price h p d
  today_part price h p d eh ep full = rw eh (
      rw full
        (rw (confirm_exit_queued h.qty d (contains_some (lookup code d.progress) p ep), ep) refl))

  nothing_more : (v : ℤ) (n : ℕ) → n ≡ 0 → v ≡ v +ℤ pos n
  nothing_more v n e = eq_of_parts v (v +ℤ pos n) (omega (arith, +ℤ_parts v (pos n)))

  no_shares :
      (n : ℕ) (d : Shop ℤ)
      → n ≡ 0
      → HasShares s cycle is_dry_run code n d
      → HasShares s cycle is_dry_run code 0 d
  no_shares n d e has = subst (λ m. HasShares s cycle is_dry_run code m d) e has

  -- All its shares are sold.
  abbrev pub IsSoldOff : ℕ → Shop ℤ → Shop ℤ → Type 0
  IsSoldOff n d d' =
      HasShares s cycle is_dry_run code 0 d' × (volume_of d'.sells ≡ volume_of d.sells +ℤ pos n)

  idle :
      (prices : List ℤ) (n : ℕ) (d : Shop ℤ)
      → n ≡ 0
      → HasShares s cycle is_dry_run code n d
      → IsSoldOff n d (sell_days s cycle is_dry_run code prices d)
  idle prices n d e has =
      let empty = no_shares n d e has in
      rw (stays_empty s cycle is_dry_run code prices d empty)
        (empty, nothing_more (volume_of d.sells) n e)

  add_parts : (v x : ℤ) (w n : ℕ) → w ≤ n → x ≡ v +ℤ pos w → x +ℤ pos (n - w) ≡ v +ℤ pos n
  add_parts v x w n h e =
      eq_of_parts (x +ℤ pos (n - w)) (v +ℤ pos n)
        (ground (arith, +ℤ_parts x (pos (n - w)), +ℤ_parts v (pos n), +ℤ_parts v (pos w)))

  -- The part of a day, and what the days after it do.
  after_part :
      (price : ℤ) (h : Holding ℤ) (p : Progress ℤ) (n : ℕ) (prices : List ℤ) (d : Shop ℤ)
      (held : h.qty ≡ pos n) (full : 0 < n) (days : p.remaining_days ≡ suc (length prices))
      → ((m : ℕ) (d' : Shop ℤ)
          → HasShares s cycle is_dry_run code m d'
          → (m ≡ 0) ⊎ (IsQueued s cycle is_dry_run code (length prices) d' × (0 < length prices))
          → IsSoldOff m d' (sell_days s cycle is_dry_run code prices d'))
      → IsSoldOff n d
          (sell_days s cycle is_dry_run code prices (sell_part s cycle is_dry_run code price h p d))
  after_part price h p n prices d held full days later =
      let r = length prices in
      let d' = sell_part s cycle is_dry_run code price h p d in
      let w = part s cycle is_dry_run code price h p n r d held full days in
      let w_le = part-le s cycle is_dry_run code price h p n r d held full days in
      let queued : (n - w ≡ 0) ⊎ (IsQueued s cycle is_dry_run code r d' × (0 < r)) =
        elim (Bool-cases (ltb 0 r)) [
          | inr last ↦
              inl (last_day s cycle is_dry_run code price h p n r d held full days (ground arith))
          | inl more ↦ elim (part-IsQueued s cycle is_dry_run code price h p n r d held full days) [
            | inl done ↦ inl done
            | inr waits ↦ inr (waits, ltb→lt 0 r more)
          ]
        ] in
      let rest =
        later (n - w) d' (part-HasShares s cycle is_dry_run code price h p n r d held full days)
          queued in
      (
        rest.0,
        rest.1
            ∙ add_parts (volume_of d.sells) (volume_of d'.sells) w n w_le
                (volume_of-part s cycle is_dry_run code price h p n r d held full days),
      )

  sell_off :
      (prices : List ℤ) (n : ℕ) (d : Shop ℤ)
      → HasShares s cycle is_dry_run code n d
      → (n ≡ 0) ⊎ (IsQueued s cycle is_dry_run code (length prices) d × (0 < length prices))
      → IsSoldOff n d (sell_days s cycle is_dry_run code prices d)
  sell_off prices n d has (inl e) = idle prices n d e has
  sell_off [] n d has (inr q) = absurd (omega (arith, q.1))
  sell_off (price ∷ prices) n d has (inr q) = elim (Bool-cases (ltb 0 n)) [
    | inr none_left ↦ idle (price ∷ prices) n d (ground arith) has
    | inl some_left ↦
        let h = has.0 in
        let p = q.0.0 in
        let full = ltb→lt 0 n some_left in
        subst (λ x. IsSoldOff n d (sell_days s cycle is_dry_run code prices x))
          (sym (today_part price h p d has.1 q.0.1 (has_some h n has.2 full)))
          (after_part price h p n prices d has.2 full q.0.2
            (λ m d' has' q'. sell_off prices m d' has' q'))
  ]

  -- In whole shares: a holding of `n` shares that is to be sold within a number of days, and that
  -- stays outside the range on so many days, whatever its prices, is sold off at their end, and the
  -- sales of these days are of `n` shares in all.
  pub sell_days-IsSoldOff :
      (prices : List ℤ) (n r : ℕ) (d : Shop ℤ)
      → HasShares s cycle is_dry_run code n d
      → IsQueued s cycle is_dry_run code r d
      → length prices ≡ r
      → 0 < r
      → IsSoldOff n d (sell_days s cycle is_dry_run code prices d)
  sell_days-IsSoldOff prices n r d has queued enough some_days =
      sell_off prices n d has (inr (rw enough (queued, some_days)))

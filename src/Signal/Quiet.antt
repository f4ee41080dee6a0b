-- ===== src/Signal/Quiet.antt =====
-- How long an alert is followed by silence.
use supabot.Base.{
  ==_iff, ==_self, All, Bool, Bool-cases, List, Option, String, [], any, ap, arith, false, if_both,
  if◌then◌else◌, inl, inr, leb, lt→ltb, nat_eq, none, not, refl, some, some_inj, string_eq, true, ℕ,
  ◌&&◌, ◌++◌, ◌<◌, ◌==◌, ◌||◌, ◌∙◌, ◌∷◌, ◌≡◌,
}
use supabot.Signal.Snooze.{
  Key, Snoozes, clean_expired_snoozes, is_snoozed, key_eq, set_snooze, snooze_end,
}
use supabot.Signal.Watch.{
  AlertEvent, Indicators, Taste, analyze_single_ticker, happen, run_events, scanned, signal_fired,
  snoozed, started,
}
use supabot.Base.Dict.{lookup, lookup-insert}
use supabot.Base.Float.{Float}

lookup-filter :
    (now ends : ℕ) (key : Key) (d : Snoozes)
    → lookup key d ≡ some ends
    → now < ends
    → lookup key (clean_expired_snoozes now d) ≡ some ends
unfolding clean_expired_snoozes
lookup-filter now ends key [] e h = cc
lookup-filter now ends key ((other, v) ∷ d) e h = elim (Bool-cases (other == key)) [
  | inl here ↦
      let same : v ≡ ends = some_inj (rw here at e) in
      let kept : leb v now ≡ false = ground (arith, same) in rw (kept, here) (ap some same)
  | inr there ↦
      let rest = lookup-filter now ends key d (rw there at e) h in
      if_both (λ x. lookup key x ≡ some ends) (not (leb v now)) _ _ (rw there rest) rest
]

module _ (key : Key) (ends : ℕ) where
  -- The snooze of the key goes on.
  abbrev pub Holds : Snoozes → Type 0
  Holds d = lookup key d ≡ some ends

  -- An alert for the key, and the snoozes after it.
  abbrev IsSilent : Bool × Snoozes → Key → Type 0
  IsSilent (alerted, d) k = ((alerted && k == key) ≡ false) × Holds d

  set_snooze-Holds :
      (k : Key) (mode : String) (now midnight : ℕ) (d : Snoozes)
      → (k == key) ≡ false
      → now < ends
      → Holds d
      → Holds (set_snooze k mode now midnight d).1
  unfolding set_snooze
  set_snooze-Holds k mode now midnight d other h held =
      lookup-insert k key (snooze_end mode now midnight) (clean_expired_snoozes now d)
      ∙ rw other (lookup-filter now ends key d held h)

  is_snoozed-Holds : (now : ℕ) (d : Snoozes) → now < ends → Holds d → is_snoozed key now d ≡ true
  unfolding is_snoozed
  is_snoozed-Holds now d h held = rw (held, is_snoozed) (lt→ltb now ends h)

alerts_of :
    (key : Key) (alerted : Bool) (k : Key)
    → (alerted && k == key) ≡ false
    → any (λ x. x == key) (if alerted then k ∷ [] else []) ≡ false
alerts_of key true k e = rw e refl
alerts_of key false k e = refl

any-append :
    {A : Type 0} (p : A → Bool) (xs ys : List A) → any p (xs ++ ys) ≡ (any p xs || any p ys)
any-append p [] ys = refl
any-append p (x ∷ xs) ys = ground (arith, any-append p xs ys)

-- An alert snoozes its ticker until midnight.
alert-Holds :
    {R : Type 0} ⦃f : Float R⦄ (key : Key) (t : Taste R) (i : Option (Indicators R))
    (delivered : Bool) (now midnight : ℕ) (d : Snoozes)
    → (analyze_single_ticker key t i delivered now midnight d).0 ≡ true
    → Holds key midnight (analyze_single_ticker key t i delivered now midnight d).1
unfolding analyze_single_ticker
alert-Holds key t none delivered now midnight d alerted = cc
alert-Holds key t (some i) delivered now midnight d alerted =
    elim (Bool-cases
      (not (is_snoozed key now d) && signal_fired t i && not t.is_quiet && delivered)) [
        | inr silent ↦ cc (rw silent at alerted)
        | inl sent ↦ rw sent (
            unfold set_snooze in
            lookup-insert key key midnight (clean_expired_snoozes now d) ∙ rw (==_self key) refl)
      ]

module _ {R : Type 0} ⦃f : Float R⦄ (key : Key) (ends : ℕ) where
  -- The event is before the end of the snooze, and no user snoozes the key anew.
  abbrev pub IsBefore : ℕ × AlertEvent R → Type 0
  IsBefore (now, started) = now < ends
  IsBefore (now, scanned k t i delivered midnight) = now < ends
  IsBefore (now, snoozed k mode midnight) = (now < ends) × ((k == key) ≡ false)

  analyze-IsSilent :
      (k : Key) (t : Taste R) (i : Option (Indicators R)) (delivered : Bool) (now midnight : ℕ)
      (d : Snoozes)
      → now < ends
      → Holds key ends d
      → IsSilent key ends (analyze_single_ticker k t i delivered now midnight d) k
  unfolding analyze_single_ticker
  analyze-IsSilent k t none delivered now midnight d h held = (refl, held)
  analyze-IsSilent k t (some i) delivered now midnight d h held = elim (Bool-cases (k == key)) [
    | inl same ↦
        let silenced : is_snoozed k now d ≡ true =
          ap (λ x. is_snoozed x now d) ((==_iff k key).0 same)
          ∙ is_snoozed-Holds key ends now d h held in
        rw silenced (refl, held)
    | inr other ↦
        if_both (λ r. IsSilent key ends r k)
          (not (is_snoozed k now d) && signal_fired t i && not t.is_quiet && delivered) _ (false, d)
          (other, set_snooze-Holds key ends k "day" now midnight d other h held) (refl, held)
  ]

  happen-IsSilent :
      (now : ℕ) (e : AlertEvent R) (d : Snoozes)
      → IsBefore (now, e)
      → Holds key ends d
      → let (alerts, d') = happen now e d in
        (any (λ k. k == key) alerts ≡ false) × Holds key ends d'
  unfolding happen
  happen-IsSilent now started d h held = (refl, lookup-filter now ends key d held h)
  happen-IsSilent now (snoozed k mode midnight) d h held =
      (refl, set_snooze-Holds key ends k mode now midnight d h.1 h.0 held)
  happen-IsSilent now (scanned k t i delivered midnight) d h held =
      let (quiet, held') = analyze-IsSilent k t i delivered now midnight d h held in
      (alerts_of key _ k quiet, held')

  run_events-IsSilent :
      (events : List (ℕ × AlertEvent R)) (d : Snoozes)
      → All IsBefore events
      → Holds key ends d
      → any (λ k. k == key) (run_events events d).0 ≡ false
  unfolding run_events
  run_events-IsSilent [] d h held = refl
  run_events-IsSilent ((now, e) ∷ events) d h held =
      let (quiet, held') = happen-IsSilent now e d h.0 held in
      any-append (λ k. k == key) (happen now e d).0 (run_events events (happen now e d).1).0
      ∙ rw quiet (run_events-IsSilent events (happen now e d).1 h.1 held')

-- After an alert for a ticker of a user nothing that happens before the next midnight sends
-- another one for it: whatever is scanned with whatever result, and whatever other ticker is snoozed. The
-- user is taken not to snooze that ticker anew, which could end earlier.
pub alert_once :
    {R : Type 0} ⦃f : Float R⦄ (key : Key) (t : Taste R) (i : Option (Indicators R))
    (delivered : Bool) (now midnight : ℕ) (d : Snoozes) (events : List (ℕ × AlertEvent R))
    → (analyze_single_ticker key t i delivered now midnight d).0 ≡ true
    → All (IsBefore key midnight) events
    → any
        (λ k. k == key)
        (run_events events (analyze_single_ticker key t i delivered now midnight d).1).0
      ≡ false
alert_once key t i delivered now midnight d events alerted before =
    run_events-IsSilent key midnight events
      (analyze_single_ticker key t i delivered now midnight d).1 before
      (alert-Holds key t i delivered now midnight d alerted)

-- ===== src/Dca/Outcome.antt =====
-- What may become of a schedule that is due, and the steps that lead to each end of it.
use supabot.Base.{
  Bool, Bool-cases, List, Option, String, ap, false, filter, inl, inr, nat_eq, none, not, refl,
  some, string_eq, subst, sym, true, ℕ, ◌&&◌, ◌++◌, ◌==◌, ◌∙◌, ◌≡◌, ◌⊎◌,
}
use supabot.Dca.Place.{is_coin_exchange}
use supabot.Dca.Due.{
  DcaNote, Run, advanced, after, deferred, dropped, noted?, retry_delay_seconds,
  sidecar_retry_seconds, skipped, unless_raised,
}
use supabot.Dca.Manager.{advance_schedule, counted, defer_schedule, is_exhausted, remove_schedule}
use supabot.Dca.Schedules.{Dca, Schedule, change_first, first_with}
use supabot.Dca.Times.{Calendar, compute_next_run_at}
use supabot.Dca.Lifetime.{compute_next_run_at_total, get_schedule_lem, is_supported}
use supabot.Base.Float.{Float}
use supabot.Orders.Defs.{NewOrder}
use supabot.Orders.Manager.{add_order}
use supabot.Sync.Defs.{Out, got, is_bid, raised, val}

-- A market purchase of coins for which no budget is computed: its amount is a volume.
abbrev pub lacks_budget : {R : Type 0} → Schedule R → Bool
lacks_budget s =
    s.amount_type == "volume"
    && s.order_type == "market"
    && is_bid s.side
    && is_coin_exchange s.exchange

module _ {R W : Type 0} where
  abbrev pub SameOrders : Run R W → Run R W → Type 0
  SameOrders b b' = (b'.book ≡ b.book) × (b'.effects ≡ b.effects)

  abbrev pub Same : Run R W → Run R W → Type 0
  Same b b' = (b'.dca.schedules ≡ b.dca.schedules) × SameOrders b b'

  -- No exception, and a result of which P holds.
  abbrev pub Ends : {A : Type 0} → (A → Run R W → Type 0) → Out A × Run R W → Type 0
  Ends P (val a, b) = P a b
  Ends P (raised, b) = ⊥

  pub Ends-after :
      {A B : Type 0} {P : A → Run R W → Type 0} (Q : B → Run R W → Type 0) (r : Out A × Run R W)
      (k : A → Run R W → Out B × Run R W)
      → Ends P r
      → ((a : A) (b : Run R W) → P a b → Ends Q (k a b))
      → Ends Q (after r k)
  Ends-after Q (val a, b) k p next = next a b p
  Ends-after Q (raised, b) k p next = absurd p

  pub Ends-weaken :
      {A : Type 0} {P : A → Run R W → Type 0} (Q : A → Run R W → Type 0) (r : Out A × Run R W)
      → Ends P r
      → ((a : A) (b : Run R W) → P a b → Q a b)
      → Ends Q r
  Ends-weaken Q (val a, b) p weaken = weaken a b p
  Ends-weaken Q (raised, b) p weaken = absurd p

  pub Ends-unless_raised :
      {A : Type 0} (P : A → Run R W → Type 0) (r : Out A × Run R W)
      (handler : Run R W → Out A × Run R W)
      → Ends P r
      → Ends P (unless_raised r handler)
  Ends-unless_raised P (val a, b) handler p = p
  Ends-unless_raised P (raised, b) handler p = absurd p

  deferred_lem :
      (id : String) (t : R) (b : Run R W) (m : Schedule R)
      → first_with id b.dca.schedules ≡ some m
      → SameOrders b (deferred id t b)
        × ((deferred id t b).dca.schedules
            ≡ change_first id (λ x. record x { next_run_at = t }) b.dca.schedules)
  unfolding deferred defer_schedule
  deferred_lem id t b m h = rw (h, defer_schedule) ((refl, refl), refl)

  dropped_lem :
      (id : String) (b : Run R W) (m : Schedule R)
      → first_with id b.dca.schedules ≡ some m
      → SameOrders b (dropped id b)
        × ((dropped id b).dca.schedules ≡ filter (λ x. not (x.id == id)) b.dca.schedules)
  unfolding dropped remove_schedule
  dropped_lem id b m h = rw (get_schedule_lem id b.dca ∙ h, remove_schedule) ((refl, refl), refl)

module _ {R : Type 0} where
  -- The order of a schedule.
  abbrev pub IsEntry : Schedule R → NewOrder R → Type 0
  IsEntry s o =
      (o.user_id ≡ s.user_id)
      × (o.exchange ≡ s.exchange)
      × (o.ticker ≡ s.ticker)
      × (o.side ≡ s.side)
      × (o.strategy ≡ "dca")
      × (o.group_no ≡ s.group_no)

  pub counted_timing :
      (increment : Bool) (now : R) (m : Schedule R) → (counted increment now m).timing ≡ m.timing
  counted_timing true now m = refl
  counted_timing false now m = refl

-- The time that a postponed schedule waits for: in 20 minutes, in 5, or not before now.
abbrev pub IsPostponed : {R : Type 0} ⦃f : Float R⦄ → R → R → Type 0
IsPostponed ⦃f⦄ now t =
    (t ≡ f.add now (f.of_ℕ sidecar_retry_seconds))
    ⊎ (t ≡ f.add now (f.of_ℕ retry_delay_seconds))
    ⊎ (f.le t now ≡ false)

module _ {R D : Type 0} (cal : Calendar R D) (now : R) where
  -- The list after a turn of its schedule `m`: the schedule is gone if it has had all its runs, and
  -- else it has the time that is computed for the next one.
  abbrev pub Turned : Schedule R → Bool → String → List (Schedule R) → List (Schedule R) → Type 0
  Turned m increment id xs ys =
      let m' = counted increment now m in
      ((is_exhausted m' ≡ true) × (ys ≡ filter (λ s. not (s.id == id)) xs))
      ⊎ ((next : R) × (is_exhausted m' ≡ false)
          × (compute_next_run_at cal m.timing now true ≡ got next)
          × (ys ≡ change_first id (λ _. record m' { next_run_at = next }) xs))

  advance-Turned :
      (id : String) (increment : Bool) (d : Dca R) (m : Schedule R)
      → first_with id d.schedules ≡ some m
      → is_supported m.timing ≡ true
      → (o : Option (Schedule R)) × ((advance_schedule cal id now increment d).0 ≡ got o)
        × Turned m increment id d.schedules (advance_schedule cal id now increment d).1.schedules
  unfolding advance_schedule
  advance-Turned id increment d m h sup =
      let (next, e) = compute_next_run_at_total cal m.timing now true sup in
      let e' : compute_next_run_at cal (counted increment now m).timing now true ≡ got next =
        ap (λ x. compute_next_run_at cal x now true) (counted_timing increment now m) ∙ e in
      elim (Bool-cases (is_exhausted (counted increment now m))) [
        | inl over ↦ rw (h, over) (_, refl, inl (refl, refl))
        | inr more ↦ rw (h, more, e') (_, refl, inr (next, refl, e, refl))
      ]

-- What may become of `s`, which the manager has as `m`; `A` is what is known when an order is placed.
pub data Outcome {R W D : Type 0} ⦃f : Float R⦄ (A : Type 0) (cal : Calendar R D) (now : R)
    (s m : Schedule R) (b : Run R W) (n : ℕ) (b' : Run R W) : Type 0 where
  removed :
      n ≡ 0
      → SameOrders b b'
      → b'.dca.schedules ≡ filter (λ x. not (x.id == s.id)) b.dca.schedules
      → Outcome A cal now s m b n b'
  postponed :
      (t : R)
      → n ≡ 0
      → SameOrders b b'
      → IsPostponed now t
      → b'.dca.schedules ≡ change_first s.id (λ x. record x { next_run_at = t }) b.dca.schedules
      → Outcome A cal now s m b n b'
  passed_over :
      n ≡ 0
      → SameOrders b b'
      → Turned cal now m false s.id b.dca.schedules b'.dca.schedules
      → Outcome A cal now s m b n b'
  placed :
      A
      → (o : NewOrder R) (t : R) → n ≡ 1
      → IsEntry s o
      → b'.book ≡ (add_order o t b.book).0
      → b'.effects ≡ b.effects ++ (add_order o t b.book).1
      → Turned cal now m true s.id b.dca.schedules b'.dca.schedules
      → Outcome A cal now s m b n b'

-- Messages and marks do not change an end.
pub Outcome-same :
    {R W D : Type 0} ⦃f : Float R⦄ {A : Type 0} {cal : Calendar R D} {now : R} {s m : Schedule R}
    {b : Run R W} {n : ℕ} {b' : Run R W} (b'' : Run R W)
    → Outcome A cal now s m b n b'
    → Same b' b''
    → Outcome A cal now s m b n b''
Outcome-same b'' (removed e orders list) (same, (book, effects)) =
    removed e (book ∙ orders.0, effects ∙ orders.1) (same ∙ list)
Outcome-same b'' (postponed t e orders late list) (same, (book, effects)) =
    postponed t e (book ∙ orders.0, effects ∙ orders.1) late (same ∙ list)
Outcome-same {cal = cal} {now = now} {s = s} {m = m} {b = b} b'' (passed_over e orders turned)
      (same, (book, effects)) =
    passed_over e (book ∙ orders.0, effects ∙ orders.1)
      (subst (Turned cal now m false s.id b.dca.schedules) (sym same) turned)
Outcome-same {cal = cal} {now = now} {s = s} {m = m} {b = b} b''
      (placed a o t e entry kept asked turned) (same, (book, effects)) =
    placed a o t e entry (book ∙ kept) (effects ∙ asked)
      (subst (Turned cal now m true s.id b.dca.schedules) (sym same) turned)

-- The run is at `b`, a schedule `s` of it is due, and the manager has it as `m`.
module _ {R W D : Type 0} ⦃f : Float R⦄ (cal : Calendar R D) (now : R) (s m : Schedule R)
    (b : Run R W) (found : first_with s.id b.dca.schedules ≡ some m)
    (supported : is_supported m.timing ≡ true) where
  pub advanced-Turned :
      (increment : Bool) (b' : Run R W)
      → b'.dca.schedules ≡ b.dca.schedules
      → Ends
          (λ _ b''.
            SameOrders b' b'' × Turned cal now m increment s.id b.dca.schedules b''.dca.schedules)
          (advanced cal now s.id increment b')
  unfolding advanced
  advanced-Turned increment b' same =
      let (o, e, turned) =
        advance-Turned cal now s.id increment b'.dca m (ap (first_with s.id) same ∙ found)
          supported in
      rw e (
        (refl, refl),
        subst
            (λ xs.
              Turned cal now m increment s.id xs
                (advance_schedule cal s.id now increment b'.dca).1.schedules)
            same turned,
      )

  -- Of a run `b'` with the same schedules and orders as `b`.
  module _ (A : Type 0) where
    passed_over_noted :
        (note : Option DcaNote) (b' b'' : Run R W)
        → Same b b'
        → SameOrders b' b'' × Turned cal now m false s.id b.dca.schedules b''.dca.schedules
        → Outcome A cal now s m b 0 (noted? s.user_id note b'')
    passed_over_noted none b' b'' same (orders, turned) =
        passed_over refl (orders.0 ∙ same.1.0, orders.1 ∙ same.1.1) turned
    passed_over_noted (some note) b' b'' same (orders, turned) =
        passed_over refl (orders.0 ∙ same.1.0, orders.1 ∙ same.1.1) turned

    pub skipped-Outcome :
        (note : Option DcaNote) (b' : Run R W)
        → Same b b'
        → Ends (Outcome A cal now s m b) (skipped cal now s note b')
    unfolding skipped
    skipped-Outcome note b' same =
        Ends-after (Outcome A cal now s m b) (advanced cal now s.id false b') _
          (advanced-Turned false b' same.0)
          (λ o b'' turned. passed_over_noted note b' b'' same turned)

    pub deferred-Outcome :
        (t : R) (b' : Run R W)
        → Same b b'
        → IsPostponed now t
        → Outcome A cal now s m b 0 (deferred s.id t b')
    deferred-Outcome t b' same late =
        let (orders, list) = deferred_lem s.id t b' m (ap (first_with s.id) same.0 ∙ found) in
        postponed t refl (orders.0 ∙ same.1.0, orders.1 ∙ same.1.1) late
          (list ∙ ap (change_first s.id (λ x. record x { next_run_at = t })) same.0)

    pub dropped-Outcome : (b' : Run R W) → Same b b' → Outcome A cal now s m b 0 (dropped s.id b')
    dropped-Outcome b' same =
        let (orders, list) = dropped_lem s.id b' m (ap (first_with s.id) same.0 ∙ found) in
        removed refl (orders.0 ∙ same.1.0, orders.1 ∙ same.1.1)
          (list ∙ ap (filter (λ x. not (x.id == s.id))) same.0)

-- ===== src/Dca/Runs.antt =====
-- A whole run over the schedules that are due.
use supabot.Base.{
  All, Bool, Bool-cases, List, Option-cases, String, [], ap, arith, false, filter, if_both, inl,
  inr, length, nat_eq, none, refl, some, some_inj, string_eq, subst, sym, true, ℕ, ◌++◌, ◌+◌, ◌==◌,
  ◌∙◌, ◌∷◌, ◌≡◌,
}
use supabot.Dca.Executed.{Admitted, execute_schedule-Outcome}
use supabot.Dca.Outcome.{
  Ends, Ends-after, Ends-weaken, Outcome, Turned, counted_timing, lacks_budget, passed_over, placed,
  postponed, removed,
}
use supabot.Dca.Execute.{execute_all, execute_due_dca_schedules, execute_schedule, is_due}
use supabot.Dca.Due.{Desk, Run, after}
use supabot.Dca.Schedules.{Schedule, change_first, first_with, get_schedule}
use supabot.Dca.Times.{Calendar}
use supabot.Dca.Lifetime.{get_schedule_lem, is_supported}
use supabot.Base.Float.{Float}
use supabot.Orders.Defs.{Effect, order_added}
use supabot.Orders.Manager.{add_order, found}

abbrev is_added : {R : Type 0} → Effect R → Bool
is_added order_added = true
is_added _ = false

-- How many orders have gone to the order book.
abbrev pub orders_added : {R : Type 0} → List (Effect R) → ℕ
orders_added effects = length (filter is_added effects)

orders_added-append :
    {R : Type 0} (xs ys : List (Effect R))
    → orders_added (xs ++ ys) ≡ orders_added xs + orders_added ys
orders_added-append [] ys = omega arith
orders_added-append (x ∷ xs) ys = elim (Bool-cases (is_added x)) [
  | inl e ↦ rw e (omega (arith, orders_added-append xs ys))
  | inr e ↦ rw e (orders_added-append xs ys)
]

abbrev pub IsSupported : {R : Type 0} → Schedule R → Type 0
IsSupported s = is_supported s.timing ≡ true

abbrev pub IsPriced : {R : Type 0} → Schedule R → Type 0
IsPriced s = lacks_budget s ≡ false

All-filter :
    {A : Type 0} (P : A → Type 0) (p : A → Bool) (xs : List A) → All P xs → All P (filter p xs)
All-filter P p [] h = tt
All-filter P p (x ∷ xs) h =
    if_both (All P) (p x) (x ∷ filter p xs) (filter p xs) (h.0, All-filter P p xs h.1)
      (All-filter P p xs h.1)

module _ {R : Type 0} (P : Schedule R → Type 0) where
  All-change_first :
      (id : String) (change : Schedule R → Schedule R) (xs : List (Schedule R))
      → ((x : Schedule R) → P x → P (change x))
      → All P xs
      → All P (change_first id change xs)
  All-change_first id change [] keeps h = tt
  All-change_first id change (x ∷ xs) keeps h =
      if_both (All P) (x.id == id) _ _ (keeps x h.0, h.1)
        (h.0, All-change_first id change xs keeps h.1)

  first_with-All :
      (id : String) (xs : List (Schedule R)) (m : Schedule R)
      → All P xs
      → first_with id xs ≡ some m
      → P m
  first_with-All id [] m h e = cc
  first_with-All id (x ∷ xs) m h e = elim (Bool-cases (x.id == id)) [
    | inl here ↦ subst P (some_inj (rw here at e)) h.0
    | inr there ↦ first_with-All id xs m h.1 (rw there at e)
  ]

module _ {R D : Type 0} (cal : Calendar R D) (now : R) where
  Turned-IsSupported :
      (m : Schedule R) (increment : Bool) (id : String) (xs ys : List (Schedule R))
      → Turned cal now m increment id xs ys
      → IsSupported m
      → All IsSupported xs
      → All IsSupported ys
  Turned-IsSupported m increment id xs ys (inl (over, e)) known h =
      subst (All IsSupported) (sym e) (All-filter IsSupported _ xs h)
  Turned-IsSupported m increment id xs ys (inr (next, more, c, e)) known h =
      subst (All IsSupported) (sym e) (
        All-change_first IsSupported id _ xs
          (λ x k. ap is_supported (counted_timing increment now m) ∙ known) h)

module _ {R W D : Type 0} ⦃f : Float R⦄ (cal : Calendar R D) (now : R) where
  Outcome-counts :
      (A : Type 0) (s m : Schedule R) (b : Run R W) (n : ℕ) (b' : Run R W)
      → Outcome A cal now s m b n b'
      → orders_added b'.effects ≡ orders_added b.effects + n
  Outcome-counts A s m b n b' (removed e orders list) = rw (e, orders.1) (omega arith)
  Outcome-counts A s m b n b' (postponed t e orders late list) = rw (e, orders.1) (omega arith)
  Outcome-counts A s m b n b' (passed_over e orders turned) = rw (e, orders.1) (omega arith)
  Outcome-counts A s m b n b' (placed a o t e entry kept asked turned) =
      ap orders_added asked
      ∙ orders_added-append b.effects (add_order o t b.book).1
      ∙ (unfold add_order in rw e refl)

  Outcome-IsSupported :
      (A : Type 0) (s m : Schedule R) (b : Run R W) (n : ℕ) (b' : Run R W)
      → Outcome A cal now s m b n b'
      → IsSupported m
      → All IsSupported b.dca.schedules
      → All IsSupported b'.dca.schedules
  Outcome-IsSupported A s m b n b' (removed e orders list) known h =
      subst (All IsSupported) (sym list) (All-filter IsSupported _ b.dca.schedules h)
  Outcome-IsSupported A s m b n b' (postponed t e orders late list) known h =
      subst (All IsSupported) (sym list)
        (All-change_first IsSupported s.id _ b.dca.schedules (λ x k. k) h)
  Outcome-IsSupported A s m b n b' (passed_over e orders turned) known h =
      Turned-IsSupported cal now m false s.id b.dca.schedules b'.dca.schedules turned known h
  Outcome-IsSupported A s m b n b' (placed a o t e entry kept asked turned) known h =
      Turned-IsSupported cal now m true s.id b.dca.schedules b'.dca.schedules turned known h

-- A run over the copies of schedules, with the orders that were placed before it.
module _ {R W D : Type 0} ⦃f : Float R⦄ (desk : Desk R W) (cal : Calendar R D) (now : R) where
  abbrev Counts : ℕ → Run R W → ℕ → Run R W → Type 0
  Counts count b n b' =
      (orders_added b'.effects + count ≡ orders_added b.effects + n)
      × All IsSupported b'.dca.schedules

  execute_found :
      (s m : Schedule R) (b : Run R W)
      → first_with s.id b.dca.schedules ≡ some m
      → All IsSupported b.dca.schedules
      → IsPriced s
      → Ends (Counts 0 b) (execute_schedule desk cal now s b)
  execute_found s m b found known priced =
      let supported = first_with-All IsSupported s.id b.dca.schedules m known found in
      Ends-weaken (Counts 0 b) (execute_schedule desk cal now s b)
        (execute_schedule-Outcome desk cal now s m b found supported priced)
        (λ n b' end. (
          omega (arith, Outcome-counts cal now (Admitted desk s b) s m b n b' end),
          Outcome-IsSupported cal now (Admitted desk s b) s m b n b' end supported known,
        ))

  execute_all_gone :
      (s : Schedule R) (rest : List (Schedule R)) (count : ℕ) (b : Run R W)
      → get_schedule s.id none b.dca ≡ none
      → execute_all desk cal now (s ∷ rest) count b ≡ execute_all desk cal now rest count b
  unfolding execute_all
  execute_all_gone s rest count b e = rw (e, execute_all) refl

  execute_all_found :
      (s m : Schedule R) (rest : List (Schedule R)) (count : ℕ) (b : Run R W)
      → get_schedule s.id none b.dca ≡ some m
      → execute_all desk cal now (s ∷ rest) count b
        ≡ after
            (execute_schedule desk cal now s b)
            (λ n b'. execute_all desk cal now rest (count + n) b')
  unfolding execute_all
  execute_all_found s m rest count b e = rw (e, execute_all) refl

  execute_all-Counts :
      (due : List (Schedule R)) (count : ℕ) (b : Run R W)
      → All IsPriced due
      → All IsSupported b.dca.schedules
      → Ends (Counts count b) (execute_all desk cal now due count b)
  unfolding execute_all
  execute_all-Counts [] count b priced known = (refl, known)
  execute_all-Counts (s ∷ rest) count b priced known =
      elim (Option-cases (get_schedule s.id none b.dca)) [
        | inl gone ↦
            subst (Ends (Counts count b)) (sym (execute_all_gone s rest count b gone))
              (execute_all-Counts rest count b priced.1 known)
        | inr (m, e) ↦ subst (Ends (Counts count b)) (sym (execute_all_found s m rest count b e)) (
            Ends-after (Counts count b) (execute_schedule desk cal now s b)
              (λ n b'. execute_all desk cal now rest (count + n) b')
              (execute_found s m b (sym (get_schedule_lem s.id b.dca) ∙ e) known priced.0)
              (λ n b' one.
                Ends-weaken (Counts count b) (execute_all desk cal now rest (count + n) b')
                  (execute_all-Counts rest (count + n) b' priced.1 one.1)
                  (λ n' b'' more. (omega (arith, one.0, more.0), more.1))))
      ]

  -- If every schedule has a frequency that the program knows and none is a purchase of coins at the
  -- market by volume, a run over the schedules that are due raises no exception, the number that
  -- it returns is the number of orders that have gone to the order book, and the schedules that are
  -- left have frequencies that the program knows.
  pub execute_due_counts :
      (b : Run R W)
      → All IsSupported b.dca.schedules
      → All IsPriced b.dca.schedules
      → Ends
          (λ n b'.
            (orders_added b'.effects ≡ orders_added b.effects + n)
            × All IsSupported b'.dca.schedules)
          (execute_due_dca_schedules desk cal now b)
  unfolding execute_due_dca_schedules
  execute_due_counts b known priced =
      let start = record b { effective_budget = none } in
      Ends-weaken _
        (execute_all desk cal now (filter (is_due desk cal now) b.dca.schedules) 0 start)
        (execute_all-Counts (filter (is_due desk cal now) b.dca.schedules) 0 start
          (All-filter IsPriced (is_due desk cal now) b.dca.schedules priced) known)
        (λ n b' all. (omega (arith, all.0), all.1))

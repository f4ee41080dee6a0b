-- ===== src/Sync/Cancelled.antt =====
-- Cancelling an order: what is removed, and what stays tracked.
use supabot.Base.{
  ==_iff, Bool, Bool-cases, String, arith, false, if◌then◌else◌, inl, inr, nat_eq, none, refl,
  string_eq, true, ℕ, ◌∙◌, ◌≡◌, ◌⊎◌,
}
use supabot.Orders.Defs.{Order}
use supabot.Orders.Manager.{remove_order}
use supabot.Sync.Defs.{Adapter, Answer-cases, Bot, Out, chain, pure, remove, val}
use supabot.Sync.Cancel.{cancel_and_remove_order, is_over, try_cancel, try_status}

module _ {R W : Type 0} where
  -- The part of the bot that a change of the world leaves alone.
  pub remove_untracks : (u : String) (b : Bot R W) → (remove u b).1.book.by_uuid u ≡ none
  unfolding remove_order
  remove_untracks u b = ground (arith, ==_iff u u)

  -- Done with `true`, and untracked; or with `false`, and only the world has changed.
  abbrev pub IsSettled : String → Bot R W → Out Bool × Bot R W → Type 0
  IsSettled u b (r, b') =
      ((r ≡ val true) × (b'.book.by_uuid u ≡ none) × (b'.trades ≡ b.trades) × (b'.notes ≡ b.notes))
      ⊎ ((r ≡ val false)
          × (b'.book ≡ b.book)
          × (b'.requests ≡ b.requests)
          × (b'.trades ≡ b.trades)
          × (b'.notes ≡ b.notes))

  try_cancel-IsSettled :
      (ad : Adapter R W) (user : String) (o : Order R) (b : Bot R W)
      → IsSettled o.uuid b (try_cancel ad user o b)
  unfolding try_cancel remove_order
  try_cancel-IsSettled ad user o b =
      elim (Answer-cases (ad.cancel_order user o.exchange o.uuid o.ticker b.world)) [
        | inr (w, e) ↦ rw e (inr (refl, refl, refl, refl, refl))
        | inl (ok, w, e) ↦ elim (Bool-cases ok) [
          | inl t ↦ rw (e, t) (inl (refl, ground (arith, ==_iff o.uuid o.uuid), refl, refl))
          | inr n ↦ rw (e, n) (inr (refl, refl, refl, refl, refl))
        ]
      ]

  try_status-IsSettled :
      (ad : Adapter R W) (user : String) (o : Order R) (b : Bot R W)
      → IsSettled o.uuid b (try_status ad user o b)
  unfolding try_status remove_order
  try_status-IsSettled ad user o b =
      elim (Answer-cases (ad.get_order_status user o.exchange o.uuid o.ticker b.world)) [
        | inr (w, e) ↦ rw e (inr (refl, refl, refl, refl, refl))
        | inl (r, w, e) ↦ elim (Bool-cases (is_over r)) [
          | inl t ↦ rw (e, t) (inl (refl, ground (arith, ==_iff o.uuid o.uuid), refl, refl))
          | inr n ↦ rw (e, n) (inr (refl, refl, refl, refl, refl))
        ]
      ]

  cancel_and_remove_order_lem :
      (ad : Adapter R W) (user : String) (a : ℕ) (b : Bot R W)
      → cancel_and_remove_order ad user a b
        ≡ chain
            (try_cancel ad user (b.book.heap a) b)
            (λ taken. if taken then pure true else try_status ad user (b.book.heap a))
  unfolding cancel_and_remove_order
  cancel_and_remove_order_lem ad user a b = refl

  -- Asked to cancel an order, the bot answers in every case. With `true` it tracks the order no
  -- more; with `false` the book, the requests to the database, the trades and the messages are as
  -- before, so the order stays tracked whatever the exchange has answered or raised.
  pub cancel_and_remove_order_outcome :
      (ad : Adapter R W) (user : String) (a : ℕ) (b : Bot R W)
      → let (r, b') = cancel_and_remove_order ad user a b in
        ((r ≡ val true)
          × (b'.book.by_uuid (b.book.heap a).uuid ≡ none)
          × (b'.trades ≡ b.trades)
          × (b'.notes ≡ b.notes))
        ⊎ ((r ≡ val false)
            × (b'.book ≡ b.book)
            × (b'.requests ≡ b.requests)
            × (b'.trades ≡ b.trades)
            × (b'.notes ≡ b.notes))
  cancel_and_remove_order_outcome ad user a b =
      let o = b.book.heap a in
      let (r, b') = try_cancel ad user o b in
      elim (try_cancel-IsSettled ad user o b) [
        | inl (e, gone, trades, notes) ↦
            rw (cancel_and_remove_order_lem, e, chain) (inl (refl, gone, trades, notes))
        | inr (e, book, requests, trades, notes) ↦
            rw (cancel_and_remove_order_lem, e, chain)
              (elim (try_status-IsSettled ad user o b') [
                | inl (e', gone, trades', notes') ↦ inl (e', gone, trades' ∙ trades, notes' ∙ notes)
                | inr (e', book', requests', trades', notes') ↦
                    inr (e', book' ∙ book, requests' ∙ requests, trades' ∙ trades, notes' ∙ notes)
              ])
      ]

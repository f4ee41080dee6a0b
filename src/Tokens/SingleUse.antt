-- ===== src/Tokens/SingleUse.antt =====
-- Lookups that consume a token, in src/core/manual_order_tokens.py and strategy_tokens.py.
use supabot.Base.{
  ==_iff, ==_self, Bool-cases, List, Option-cases, String, [], ap, arith, inl, inr, ltb, ltb→lt,
  nat_beq_iff, nat_eq, none, refl, some, string_eq, ℕ, ◌-◌, ◌<◌, ◌==◌, ◌∙◌, ◌∷◌, ◌≡◌, ◌≢◌, ◌≤◌,
}
use supabot.Base.Dict.{Dict, erase, insert, lookup, lookup-erase, lookup-insert}
use supabot.Tokens.Defs.{
  Entry, Event, create, err, expired, foreign, fresh_token, missing, ok, order_ttl, pop_valid,
}
use supabot.Tokens.Manual.{
  ManualOrder, StrategyOrder, create_manual_order_token, manual_expired, pop_valid_manual_order,
  pop_valid_reset_token, pop_valid_strategy_token, strategy_expired,
}
use supabot.Tokens.Minting.{fresh_token_total}

module _ {A : Type 0} (ttl : ℕ) (report : A → List Event) where
  -- Who gets an entry owns it, in time; the entry is gone then, and no event is written.
  pop_valid_sound :
      (token : ℕ) (user : String) (now : ℕ) (d : Dict ℕ (Entry A)) {p : Entry A}
      → (pop_valid ttl report token user now d).0 ≡ ok p
      → (lookup token d ≡ some p)
        × (p.owner ≡ user)
        × (now - p.created_at ≤ ttl)
        × ((pop_valid ttl report token user now d).1 ≡ erase token d)
  unfolding pop_valid
  pop_valid_sound token user now d {p} h = elim (Option-cases (lookup token d)) [
    | inl e ↦ ground arith
    | inr (q, e) ↦ ground (arith, ==_iff q.owner user)
  ]

  pop_valid_complete :
      (token : ℕ) (user : String) (now : ℕ) (d : Dict ℕ (Entry A)) (p : Entry A)
      → lookup token d ≡ some p
      → p.owner ≡ user
      → now - p.created_at ≤ ttl
      → pop_valid ttl report token user now d ≡ (ok p, erase token d, [])
  unfolding pop_valid
  pop_valid_complete token user now d p e o h =
      rw (e, pop_valid) (ground (arith, ==_iff p.owner user))

  pop_valid_missing :
      (token : ℕ) (user : String) (now : ℕ) (d : Dict ℕ (Entry A))
      → lookup token d ≡ none
      → pop_valid ttl report token user now d ≡ (err missing, d, [])
  unfolding pop_valid
  pop_valid_missing token user now d e = rw (e, pop_valid)

  -- Whatever the outcome, the other tokens keep their entries.
  pop_valid_frame :
      (token : ℕ) (user : String) (now : ℕ) (d : Dict ℕ (Entry A)) (t : ℕ)
      → t ≢ token
      → lookup t (pop_valid ttl report token user now d).1 ≡ lookup t d
  unfolding pop_valid
  pop_valid_frame token user now d t ne = elim (Option-cases (lookup token d)) [
    | inl e ↦ ground arith
    | inr (q, e) ↦ ground (arith, lookup-erase token t d, nat_beq_iff token t)
  ]

  -- Somebody else's attempt leaves the table as it is.
  pop_valid_foreign :
      (token : ℕ) (user : String) (now : ℕ) (d : Dict ℕ (Entry A)) (p : Entry A)
      → lookup token d ≡ some p
      → p.owner ≢ user
      → pop_valid ttl report token user now d ≡ (err foreign, d, [])
  unfolding pop_valid
  pop_valid_foreign token user now d p e o = rw (e, pop_valid) (ground (arith, ==_iff p.owner user))

  -- A stale entry is thrown away, and the event is written.
  pop_valid_stale :
      (token : ℕ) (user : String) (now : ℕ) (d : Dict ℕ (Entry A)) (p : Entry A)
      → lookup token d ≡ some p
      → p.owner ≡ user
      → ttl < now - p.created_at
      → pop_valid ttl report token user now d ≡ (err expired, erase token d, report p.body)
  unfolding pop_valid
  pop_valid_stale token user now d p e o h = rw (e, pop_valid) (ground (arith, ==_iff p.owner user))

lookup-erase_self : {A : Type 0} (token : ℕ) (d : Dict ℕ A) → lookup token (erase token d) ≡ none
lookup-erase_self token d = ground (arith, lookup-erase token token d)

erase-insert :
    {A : Type 0} (token : ℕ) (v : A) (d : Dict ℕ A)
    → lookup token d ≡ none
    → erase token (insert token v d) ≡ d
erase-insert token v [] h = rw (==_self token) refl
erase-insert token v ((t, x) ∷ d) h = elim (Bool-cases (t == token)) [
  | inl same ↦ cc (rw same at h)
  | inr other ↦
      rw (other, other) (ap (λ rest. (t, x) ∷ rest) (erase-insert token v d (rw other at h)))
]

-- An attempt to confirm a manual order: the token, the user and the time.
pub record Attempt : Type 0 where
  pub token : ℕ
  pub user : String
  pub time : ℕ

module _ {R : Type 0} where
  -- The table after a series of attempts, with no order registered meanwhile.
  pub attempted : List Attempt → Dict ℕ (Entry (ManualOrder R)) → Dict ℕ (Entry (ManualOrder R))
  attempted [] d = d
  attempted (a ∷ rest) d = attempted rest (pop_valid_manual_order a.token a.user a.time d).1

  -- An attempt never makes a token known.
  pop_valid-stays_missing :
      (t token : ℕ) (user : String) (now : ℕ) (d : Dict ℕ (Entry (ManualOrder R)))
      → lookup t d ≡ none
      → lookup t (pop_valid_manual_order token user now d).1 ≡ none
  unfolding pop_valid_manual_order pop_valid
  pop_valid-stays_missing t token user now d h = elim (Option-cases (lookup token d)) [
    | inl e ↦ rw e h
    | inr (q, e) ↦ ground (arith, lookup-erase token t d)
  ]

  attempted-stays_missing :
      (t : ℕ) (attempts : List Attempt) (d : Dict ℕ (Entry (ManualOrder R)))
      → lookup t d ≡ none
      → lookup t (attempted attempts d) ≡ none
  unfolding attempted
  attempted-stays_missing t [] d h = h
  attempted-stays_missing t (a ∷ rest) d h =
      attempted-stays_missing t rest (pop_valid_manual_order a.token a.user a.time d).1
        (pop_valid-stays_missing t a.token a.user a.time d h)

  refused_afterwards :
      (d : Dict ℕ (Entry (ManualOrder R))) (token : ℕ)
      → lookup token d ≡ none
      → (attempts : List Attempt) (other : String) (later : ℕ)
      → pop_valid_manual_order token other later (attempted attempts d)
        ≡ (err missing, attempted attempts d, [])
  unfolding pop_valid_manual_order
  refused_afterwards d token free attempts other later =
      pop_valid_missing order_ttl manual_expired token other later (attempted attempts d)
        (attempted-stays_missing token attempts d free)

  registered_and_tapped :
      (token : ℕ) (user : String) (order : ManualOrder R) (made now : ℕ)
      (d : Dict ℕ (Entry (ManualOrder R)))
      → fresh_token d ≡ some token
      → lookup token d ≡ none
      → now - made ≤ 600_000_000
      → let p : Entry (ManualOrder R) = record { owner = user; created_at = made; body = order } in
        (create_manual_order_token user order made d ≡ some (token, insert token p d))
        × (pop_valid_manual_order token user now (insert token p d) ≡ (ok p, d, []))
  unfolding create_manual_order_token pop_valid_manual_order create
  registered_and_tapped token user order made now d found free h =
      let p : Entry (ManualOrder R) = record { owner = user; created_at = made; body = order } in
      (
        rw (found, create_manual_order_token, create) refl,
        pop_valid_complete order_ttl manual_expired token user now (insert token p d) p
              (ground (arith, lookup-insert token token p d)) refl h
            ∙ rw (erase-insert token p d free) refl,
      )

  -- A manual order that was just registered is handed to its owner, within 600 seconds, exactly as it
  -- was given, and the table is then what it was before the order was registered. As long as no
  -- other order is registered, every later attempt with the same token, by anybody, at any time and
  -- after any other attempts, is refused as unknown and changes nothing.
  pub pop-create_manual_order :
      (user : String) (order : ManualOrder R) (made now : ℕ) (d : Dict ℕ (Entry (ManualOrder R)))
      → now - made ≤ 600_000_000
      → (token : ℕ) × (d' : Dict ℕ (Entry (ManualOrder R))) × (create_manual_order_token user order
            made d
          ≡ some (token, d'))
        × (pop_valid_manual_order token user now d'
            ≡ (ok (record { owner = user; created_at = made; body = order }), d, []))
        × ((attempts : List Attempt) (other : String) (later : ℕ)
            → pop_valid_manual_order token other later (attempted attempts d)
              ≡ (err missing, attempted attempts d, []))
  pop-create_manual_order user order made now d h =
      let (token, found, free) = fresh_token_total d in
      let (registered, handed) = registered_and_tapped token user order made now d found free h in
      (token, _, registered, handed, refused_afterwards d token free)

  -- The number of a token that was used is given out again at once: when a manual order is registered,
  -- confirmed within 600 seconds, and another one is registered then, the other order gets the same
  -- token, and a second tap of the first confirmation, by the same user, is answered with the other
  -- order, within 600 seconds of its registration.
  pub second_tap :
      (user : String) (order other : ManualOrder R) (made now again tapped : ℕ)
      (d : Dict ℕ (Entry (ManualOrder R)))
      → now - made ≤ 600_000_000
      → tapped - again ≤ 600_000_000
      → (token : ℕ) × (d' d'' : Dict ℕ (Entry (ManualOrder R))) × (create_manual_order_token user
            order made d
          ≡ some (token, d'))
        × (create_manual_order_token user other again (pop_valid_manual_order token user now d').1
            ≡ some (token, d''))
        × (pop_valid_manual_order token user tapped d''
            ≡ (ok (record { owner = user; created_at = again; body = other }), d, []))
  second_tap user order other made now again tapped d h g =
      let (token, found, free) = fresh_token_total d in
      let (first, first_handed) = registered_and_tapped token user order made now d found free h in
      let (second, second_handed) =
        registered_and_tapped token user other again tapped d found free g in
      (token, _, _, first, rw first_handed second, second_handed)

-- The payload of a strategy token is given only to its owner and at most 600 seconds after it was
-- registered, and the second tap of a double tap is refused as unknown and changes nothing.
pub double_tap :
    {P : Type 0} (token : ℕ) (user : String) (now : ℕ) (d : Dict ℕ (Entry (StrategyOrder P)))
    {payload : P}
    → (pop_valid_strategy_token token user now d).0 ≡ ok payload
    → let d' = (pop_valid_strategy_token token user now d).1 in
      ((p : Entry (StrategyOrder P)) × (lookup token d ≡ some p)
        × (p.body.payload ≡ payload)
        × (p.owner ≡ user)
        × (now - p.created_at ≤ 600_000_000))
      × ((other : String) (later : ℕ)
          → pop_valid_strategy_token token other later d' ≡ (err missing, d', []))
unfolding pop_valid_strategy_token
double_tap token user now d {payload} h = elim (Option-cases (lookup token d)) [
  | inl e ↦ cc (rw (pop_valid_missing order_ttl strategy_expired token user now d e) at h)
  | inr (p, e) ↦ elim (Bool-cases (p.owner == user)) [
    | inr foreign_user ↦ cc (
        rw
          (pop_valid_foreign order_ttl strategy_expired token user now d p e
            (λ o. cc ((==_iff p.owner user).1 o)))
          at h)
    | inl own ↦ elim (Bool-cases (ltb order_ttl (now - p.created_at))) [
      | inl old ↦ cc (
          rw
            (pop_valid_stale order_ttl strategy_expired token user now d p e
              ((==_iff p.owner user).0 own) (ltb→lt _ _ old))
            at h)
      | inr fresh ↦
          let o : p.owner ≡ user = (==_iff p.owner user).0 own in
          let young : now - p.created_at ≤ order_ttl = ground arith in
          let popped = pop_valid_complete order_ttl strategy_expired token user now d p e o young in
          (
            (p, e, cc (rw popped at h), o, young),
            λ other later. rw popped (
                rw (
                  pop_valid_missing order_ttl strategy_expired token other later (erase token d)
                    (lookup-erase_self token d))),
          )
    ]
  ]
]

-- A reset confirmation of another administrator is refused and stays usable; a stale one is
-- refused, and is gone for everybody; in both cases the other pending resets stay.
pub reset_refusals :
    (token : ℕ) (admin : String) (now : ℕ) (d : Dict ℕ (Entry String)) (p : Entry String)
    → lookup token d ≡ some p
    → (p.owner ≢ admin → pop_valid_reset_token token admin now d ≡ (err foreign, d, []))
      × (p.owner ≡ admin
          → 600_000_000 < now - p.created_at
          → (pop_valid_reset_token token admin now d).0 ≡ err expired)
      × (p.owner ≡ admin → lookup token (pop_valid_reset_token token admin now d).1 ≡ none)
      × ((t : ℕ) → t ≢ token → lookup t (pop_valid_reset_token token admin now d).1 ≡ lookup t d)
unfolding pop_valid_reset_token
reset_refusals token admin now d p e = (
  pop_valid_foreign order_ttl (λ _. []) token admin now d p e,
  λ o h. ap (λ r. r.0) (pop_valid_stale order_ttl (λ _. []) token admin now d p e o h),
  λ o. elim (Bool-cases (ltb order_ttl (now - p.created_at))) [
    | inl old ↦
        rw (pop_valid_stale order_ttl (λ _. []) token admin now d p e o (ltb→lt _ _ old))
          (lookup-erase_self token d)
    | inr fresh ↦
        rw (pop_valid_complete order_ttl (λ _. []) token admin now d p e o (ground arith))
          (lookup-erase_self token d)
  ],
  pop_valid_frame order_ttl (λ _. []) token admin now d,
)

-- ===== src/Base/Lists.antt =====
-- Lists measured by native numbers, predicates on all members, and counting.
use Prim.Native.Nat.{ℕ, zero, suc, ◌+◌, ◌≤◌, ◌<◌}
use mathlib.Core.Path.{◌≡◌, refl}
use mathlib.Core.Bool.{Bool, true, false, ◌&&◌, ◌||◌}
use mathlib.Core.Option.{Option, none, some}
use mathlib.Core.List.{List, [], ◌∷◌, ◌++◌}
use native.Mathlib.Omega.{arith}
use supabot.Base.Tests.{if◌then◌else◌, nat_beq, nat_beq_iff}

module _ {ℓ} {A : Type ℓ} where
  abbrev pub length : List A → ℕ
  length [] = 0
  length (x ∷ xs) = suc (length xs)

  pub length-append : (xs ys : List A) → length (xs ++ ys) ≡ length xs + length ys
  length-append [] ys = omega arith
  length-append (x ∷ xs) ys = omega (arith, length-append xs ys)

  abbrev pub get_elem? : List A → ℕ → Option A
  get_elem? [] i = none
  get_elem? (x ∷ xs) zero = some x
  get_elem? (x ∷ xs) (suc i) = get_elem? xs i

  -- A list comprehension with a Boolean test.
  abbrev pub filter : (A → Bool) → List A → List A
  filter p [] = []
  filter p (x ∷ xs) = if p x then x ∷ filter p xs else filter p xs

  -- `any(...)` and `all(...)` over a generator.
  abbrev pub any : (A → Bool) → List A → Bool
  any p [] = false
  any p (x ∷ xs) = p x || any p xs

  abbrev pub all : (A → Bool) → List A → Bool
  all p [] = true
  all p (x ∷ xs) = p x && all p xs

  abbrev pub All {κ} : (A → Type κ) → List A → Type κ
  All P [] = Unit
  All P (x ∷ xs) = P x × All P xs

  pub All-append {κ} : (P : A → Type κ) (xs ys : List A) → All P xs → All P ys → All P (xs ++ ys)
  All-append P [] ys p q = q
  All-append P (x ∷ xs) ys p q = (p.0, All-append P xs ys p.1 q)

-- Membership of an address in a list of addresses.
abbrev pub elem : ℕ → List ℕ → Bool
elem a [] = false
elem a (b ∷ bs) = nat_beq b a || elem a bs

pub elem-filter : (p : ℕ → Bool) (a : ℕ) (xs : List ℕ) → elem a (filter p xs) ≡ (p a && elem a xs)
elem-filter p a [] = ground arith
elem-filter p a (x ∷ xs) = ground (arith, elem-filter p a xs, nat_beq_iff x a)

pub elem-append : (a : ℕ) (xs ys : List ℕ) → elem a (xs ++ ys) ≡ (elem a xs || elem a ys)
elem-append a [] ys = refl
elem-append a (x ∷ xs) ys = ground (arith, elem-append a xs ys)

pub length-filter-le : (p : ℕ → Bool) (xs : List ℕ) → length (filter p xs) ≤ length xs
length-filter-le p [] = omega arith
length-filter-le p (x ∷ xs) = ground (arith, length-filter-le p xs)

pub filter_drops :
    (p : ℕ → Bool) (a : ℕ) (xs : List ℕ)
    → elem a xs ≡ true
    → p a ≡ false
    → length (filter p xs) < length xs
filter_drops p a [] h no_a = cc
filter_drops p a (x ∷ xs) h no_a =
    ground (arith, filter_drops p a xs, length-filter-le p xs, nat_beq_iff x a)

pub filter_keeps :
    (p : ℕ → Bool) (xs : List ℕ)
    → ((a : ℕ) → elem a xs ≡ true → p a ≡ true)
    → length (filter p xs) ≡ length xs
filter_keeps p [] h = refl
filter_keeps p (x ∷ xs) h =
    ground (arith, h x, nat_beq_iff x x, filter_keeps p xs (λ a i. h a (ground arith)))

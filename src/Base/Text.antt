-- ===== src/Base/Text.antt =====
-- Python's methods of `str` that the program uses, on the code points of a text. Letters are those of
-- ASCII: the exchanges' names and the tickers hold no other letters that have two cases.
use Prim.Native.Nat.{ℕ, zero, suc, ◌+◌, ◌-◌}
use Prim.Native.Char.{code}
use Prim.Native.String.{String}
use mathlib.Core.Bool.{Bool, true, false, ◌&&◌, ◌||◌, not}
use mathlib.Core.List.{List, [], ◌∷◌, map, reverse}
use supabot.Base.Tests.{leb, nat_beq, if◌then◌else◌}
use supabot.Base.Lists.{all}

abbrev pub codes : String → List ℕ
codes String.[] = []
codes (String.◌∷◌ c s) = code c ∷ codes s

abbrev upper_code : ℕ → ℕ
upper_code c = if leb b'a' c && leb c b'z' then c - 32 else c

-- `s.upper()`
abbrev pub upper : String → List ℕ
upper s = map upper_code (codes s)

abbrev lower_code : ℕ → ℕ
lower_code c = if leb b'A' c && leb c b'Z' then c + 32 else c

-- `s.lower()`
abbrev pub lower : String → List ℕ
lower s = map lower_code (codes s)

-- White space of ASCII.
abbrev is_space : ℕ → Bool
is_space c = nat_beq c 32 || leb 9 c && leb c 13 || leb 28 c && leb c 31

abbrev drop_spaces : List ℕ → List ℕ
drop_spaces [] = []
drop_spaces (c ∷ cs) = let rest = drop_spaces cs in if is_space c then rest else c ∷ cs

-- `s.strip()`
abbrev pub strip : List ℕ → List ℕ
strip cs = reverse (drop_spaces (reverse (drop_spaces cs)))

abbrev pub upper_codes : List ℕ → List ℕ
upper_codes = map upper_code

abbrev pub same_codes : List ℕ → List ℕ → Bool
same_codes [] [] = true
same_codes (x ∷ xs) (y ∷ ys) = nat_beq x y && same_codes xs ys
same_codes _ _ = false

abbrev pub begins_with : List ℕ → List ℕ → Bool
begins_with xs [] = true
begins_with [] (y ∷ ys) = false
begins_with (x ∷ xs) (y ∷ ys) = nat_beq x y && begins_with xs ys

-- `s.endswith(t)`
abbrev pub ends_with : String → String → Bool
ends_with s t = begins_with (reverse (codes s)) (reverse (codes t))

abbrev is_empty : List ℕ → Bool
is_empty [] = true
is_empty (x ∷ xs) = false

-- `s.isdigit()`
abbrev pub is_digit : String → Bool
is_digit s = not (is_empty (codes s)) && all (λ c. leb b'0' c && leb c b'9') (codes s)

-- `s.replace(t, "")` for a text `t` that is not empty, on the codes; the number says how many codes
-- of a match are still to be skipped.
abbrev cut : List ℕ → ℕ → ℕ → List ℕ → List ℕ
cut t more k [] = []
cut t more (suc k) (c ∷ cs) = cut t more k cs
cut t more zero (c ∷ cs) =
    let skipped = cut t more more cs in
    let kept = cut t more zero cs in if begins_with (c ∷ cs) t then skipped else c ∷ kept

abbrev pub without_krw : String → List ℕ
without_krw s = cut (codes "KRW-") 3 0 (codes s)

abbrev is_letter : ℕ → Bool
is_letter c = leb b'a' c && leb c b'z' || leb b'A' c && leb c b'Z'

-- `s.isalpha()`
abbrev pub is_alpha : List ℕ → Bool
is_alpha cs = not (is_empty cs) && all is_letter cs

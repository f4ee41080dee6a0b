-- ===== src/Signal/Snooze.antt =====
-- The snoozes of alerts in src/core/signal_engine.py. A time is a number of microseconds; the midnight
-- that comes next is a parameter. The file that keeps the snoozes is left out.
use supabot.Base.{
  ==_iff, Bool, Eq, String, arith, false, filter, if◌then◌else◌, leb, ltb, nat_eq, none, not, some,
  string_eq, true, ℕ, ◌&&◌, ◌+◌, ◌==◌, ◌↔◌, ◌≡◌,
}
use supabot.Base.Dict.{Dict, insert, lookup}

-- The user, the exchange and the ticker.
abbrev pub Key : Type 0
Key = String × String × String

abbrev pub same_key : Key → Key → Bool
same_key (a, b, c) (x, y, z) = a == x && b == y && c == z

pub same_key_iff : (k l : Key) → (same_key k l ≡ true) ↔ (k ≡ l)
same_key_iff (a, b, c) (x, y, z) = ground (arith, ==_iff a x, ==_iff b y, ==_iff c z)

instance abbrev pub key_eq : Eq Key
key_eq = record { same = same_key; same_iff = same_key_iff }

-- When the snooze of a key ends.
abbrev pub Snoozes : Type 0
Snoozes = Dict Key ℕ

unfoldable pub clean_expired_snoozes : ℕ → Snoozes → Snoozes
clean_expired_snoozes now d = filter (λ entry. not (leb entry.1 now)) d

-- 3,600 and 7,200 seconds.
abbrev pub snooze_end : String → ℕ → ℕ → ℕ
snooze_end mode now midnight =
    if mode == "1h"
    then now + 3_600_000_000
    else (if mode == "2h" then now + 7_200_000_000 else midnight)

unfoldable pub set_snooze : Key → String → ℕ → ℕ → Snoozes → ℕ × Snoozes
unfolding clean_expired_snoozes
set_snooze key mode now midnight d =
    let ends = snooze_end mode now midnight in (ends, insert key ends (clean_expired_snoozes now d))

-- A key that has no snooze counts as one that ended at 0.
unfoldable pub is_snoozed : Key → ℕ → Snoozes → Bool
is_snoozed key now d = elim (lookup key d) [ none ↦ false | some ends ↦ ltb now ends ]

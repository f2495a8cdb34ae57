-- ===== src/Messages/RetryAfter.antt =====
-- app/utils/retry_after.py, over the bytes of a header value (HTTP headers are latin-1, whose only
-- decimal digits are the ASCII ones).
pub mod RoundTrip
use Prim.Native.Nat.{zero, suc, ◌+◌, ◌-◌, ◌*◌, max}
use mathlib.Core.List.{reverse}
use cueapi_core.Prelude.{
  ℕ, Bool, true, false, not, ◌&&◌, ◌||◌, Option, none, some, List, [], ◌∷◌, leb, ◌==◌, nat_eq,
  if◌then◌else◌, length,
}

abbrev pub is_digit : ℕ → Bool
is_digit c = leb 48 c && leb c 57

-- The white space of str.strip within latin-1.
abbrev pub is_space : ℕ → Bool
is_space c = (leb 9 c && leb c 13) || (leb 28 c && leb c 32) || c == 133 || c == 160

unfoldable pub strip_left : List ℕ → List ℕ
strip_left [] = []
strip_left (c ∷ s) = if is_space c then strip_left s else c ∷ s

unfoldable pub strip : List ℕ → List ℕ
unfolding strip_left
strip s = reverse (strip_left (reverse (strip_left s)))

-- The digits of int(): an underscore may stand between two digits. `prev` says that the character
-- before was a digit.
unfoldable pub scan : ℕ → Bool → List ℕ → Option ℕ
scan n true [] = some n
scan n false [] = none
scan n prev (c ∷ s) =
    let more = scan (n * 10 + (c - 48)) true s in
    let gap = scan n false s in if is_digit c then more else if c == 95 && prev then gap else none

unfoldable pub digit_count : List ℕ → ℕ
digit_count [] = 0
digit_count (c ∷ s) = let rest = digit_count s in if is_digit c then suc rest else rest

-- int(): a sign, then digits, at most 4300 of them; the answer is whether the sign is minus, and the
-- absolute value. none is a ValueError.
unfoldable pub magnitude : List ℕ → Option ℕ
unfolding scan digit_count
magnitude s = if leb (digit_count s) 4300 then scan 0 false s else none

unfoldable pub parse_int : List ℕ → Option (Bool × ℕ)
unfolding magnitude
parse_int [] = none
parse_int (c ∷ s) =
    if c == 45
    then elim (magnitude s) [ none ↦ none | some n ↦ some (true, n) ]
    else if c == 43
    then elim (magnitude s) [ none ↦ none | some n ↦ some (false, n) ]
    else elim (magnitude (c ∷ s)) [ none ↦ none | some n ↦ some (false, n) ]

abbrev pub at_least : ℕ → Option (Bool × ℕ) → ℕ
at_least own_min none = own_min
at_least own_min (some (true, n)) = own_min
at_least own_min (some (false, n)) = max own_min n

-- parse_retry_after. An empty value, before or after it is stripped, is no number.
unfoldable pub parse_retry_after : Option (List ℕ) → ℕ → ℕ
unfolding parse_int strip
parse_retry_after none own_min = own_min
parse_retry_after (some value) own_min = at_least own_min (parse_int (strip value))

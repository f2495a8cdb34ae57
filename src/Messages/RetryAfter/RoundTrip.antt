-- ===== src/Messages/RetryAfter/RoundTrip.antt =====
-- Numbers in decimal, as an HTTP server prints them, and parse_retry_after.
use Prim.Native.Nat.{zero, suc, ◌+◌, ◌-◌, ◌*◌, ◌/◌, ◌%◌, ◌≤◌, ◌<◌, max}
use mathlib.Core.List.{reverse, reverse-cons, reverse-reverse}
use cueapi_core.Prelude.{
  ℕ, ◌≡◌, refl, ap, ◌∙◌, Bool, true, false, some, List, [], ◌∷◌, leb, ◌==◌, nat_eq, if◌then◌else◌,
  All, arith, Bool-cases, inl, inr, append-All,
}
use cueapi_core.Messages.RetryAfter.{
  is_digit, strip_left, strip, scan, digit_count, magnitude, parse_int, parse_retry_after,
}

-- The digits of a number in front of others; the fuel is at least the number of digits.
abbrev pub emit : ℕ → ℕ → List ℕ → List ℕ
emit zero n out = out
emit (suc f) n out =
    let rest = emit f (n / 10) ((48 + n % 10) ∷ out) in
    if n / 10 == 0 then (48 + n % 10) ∷ out else rest

abbrev pub decimal : ℕ → List ℕ
decimal n = emit (suc n) n []

digit-is_digit : (d : ℕ) → d < 10 → is_digit (48 + d) ≡ true
digit-is_digit d h = ground arith

scan-digit :
    (n d : ℕ) (b : Bool) (out : List ℕ)
    → d < 10
    → scan n b ((48 + d) ∷ out) ≡ scan (n * 10 + d) true out
unfolding scan
scan-digit n d true out h =
    let e : n * 10 + (48 + d - 48) ≡ n * 10 + d = omega arith in
    rw (digit-is_digit d h) (ap (λ k. scan k true out) e)
scan-digit n d false out h =
    let e : n * 10 + (48 + d - 48) ≡ n * 10 + d = omega arith in
    rw (digit-is_digit d h) (ap (λ k. scan k true out) e)

scan-emit : (f n : ℕ) (out : List ℕ) → n < f → scan 0 false (emit f n out) ≡ scan n true out
scan-emit zero n out h = elim h [ ]
scan-emit (suc f) n out h = elim (Bool-cases (n / 10 == 0)) [
  | inl last ↦
      let e : 0 * 10 + n % 10 ≡ n = ground arith in
      rw last (scan-digit 0 (n % 10) false out (omega arith) ∙ ap (λ k. scan k true out) e)
  | inr more ↦
      let e : n / 10 * 10 + n % 10 ≡ n = omega arith in
      rw more (
        scan-emit f (n / 10) ((48 + n % 10) ∷ out) (ground arith)
        ∙ scan-digit (n / 10) (n % 10) true out (omega arith)
        ∙ ap (λ k. scan k true out) e)
]

abbrev Digits : List ℕ → Type 0
Digits s = All (λ c. is_digit c ≡ true) s

emit-Digits : (f n : ℕ) (out : List ℕ) → Digits out → Digits (emit f n out)
emit-Digits zero n out h = h
emit-Digits (suc f) n out h =
    let here = digit-is_digit (n % 10) (omega arith) in
    let rest = emit-Digits f (n / 10) ((48 + n % 10) ∷ out) (here, h) in
    elim (Bool-cases (n / 10 == 0)) [ inl last ↦ rw last (here, h) | inr more ↦ rw more rest ]

strip_left-Digits : (s : List ℕ) → Digits s → strip_left s ≡ s
unfolding strip_left
strip_left-Digits [] h = refl
strip_left-Digits (c ∷ s) h = ground arith

reverse-Digits : (s : List ℕ) → Digits s → Digits (reverse s)
reverse-Digits [] h = tt
reverse-Digits (c ∷ s) h =
    rw (reverse-cons c s) (append-All _ (reverse s) (c ∷ []) (reverse-Digits s h.1) (h.0, tt))

strip-Digits : (s : List ℕ) → Digits s → strip s ≡ s
unfolding strip
strip-Digits s h =
    rw (strip_left-Digits s h)
      (rw (strip_left-Digits (reverse s) (reverse-Digits s h)) (reverse-reverse s))

-- A digit is no sign, so int() reads the digits.
parse_int-Digits :
    (s : List ℕ) (n : ℕ)
    → Digits s
    → digit_count s ≤ 4300
    → scan 0 false s ≡ some n
    → parse_int s ≡ some (false, n)
unfolding parse_int magnitude
parse_int-Digits [] n h few e = cc
parse_int-Digits (c ∷ s) n h few e =
    let short : leb (digit_count (c ∷ s)) 4300 ≡ true = ground arith in
    let no_minus : (c == 45) ≡ false = ground arith in
    let no_plus : (c == 43) ≡ false = ground arith in rw (no_minus, no_plus, short, e) refl

-- A header that holds a number of seconds in decimal, of at most 4300 digits, gives that number, but
-- never less than the server's own minimum.
pub parse_retry_after-decimal :
    (n own_min : ℕ)
    → digit_count (decimal n) ≤ 4300
    → parse_retry_after (some (decimal n)) own_min ≡ max own_min n
unfolding parse_retry_after scan
parse_retry_after-decimal n own_min few =
    let digits = emit-Digits (suc n) n [] tt in
    let value = scan-emit (suc n) n [] (omega arith) in
    rw (strip-Digits (decimal n) digits)
      (rw (parse_int-Digits (decimal n) n digits few (value ∙ refl)) refl)

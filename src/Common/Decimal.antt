-- ===== src/Common/Decimal.antt =====
-- Numbers as text, in a base of at most ten: what `format!` writes for an unsigned integer with `{}` or
-- `{:o}`, and what `str::parse::<u64>` reads.
use Prim.Native.Nat.{ℕ, zero, suc, ◌+◌, ◌-◌, ◌*◌, ◌/◌, ◌%◌, ◌^◌, ◌≤◌, ◌<◌}
use mathlib.Core.Path.{◌≡◌, refl, ap, ◌∙◌}
use mathlib.Core.Logic.{inl, inr}
use mathlib.Core.Bool.{Bool, ◌&&◌}
use mathlib.Core.Option.{Option, none, some}
use mathlib.Core.List.{List, [], ◌∷◌, ◌++◌}
use native.Mathlib.Omega.{arith}
use native.Mathlib.Nat.{pow-suc, pow-zero, mod-lt, div-add-mod', div-le_self, div-lt_iff_lt-mul}
use protanki_protocol_rs.Common.Tests.{ltb, leb, ◌==◌, if◌then◌else◌, Bool-cases}
use protanki_protocol_rs.Common.Lists.{All, All-append, length, length-append}

-- The digits of a number, the lowest last, with fuel for the digits.
unfoldable pub digits : ℕ → ℕ → ℕ → List ℕ
digits base zero n = []
digits base (suc fuel) n =
    let rest = digits base fuel (n / base) ++ ((48 + n % base) ∷ []) in
    if ltb n base then (48 + n) ∷ [] else rest

abbrev pub is_digit : ℕ → ℕ → Bool
is_digit base c = leb 48 c && ltb c (48 + base)

-- The digits read on from a value, as long as the value is below a limit.
unfoldable pub scan : ℕ → ℕ → ℕ → List ℕ → Option ℕ
scan base limit acc [] = some acc
scan base limit acc (c ∷ cs) =
    let next = acc * base + (c - 48) in
    let rest = scan base limit next cs in if is_digit base c && ltb next limit then rest else none

abbrev pub IsDigit : ℕ → Type 0
IsDigit c = (48 ≤ c) × (c < 58)

scan-append :
    (base limit acc : ℕ) (xs ys : List ℕ) (n : ℕ)
    → scan base limit acc xs ≡ some n
    → scan base limit acc (xs ++ ys) ≡ scan base limit n ys
unfolding scan
scan-append base limit acc [] ys n e = cc
scan-append base limit acc (x ∷ xs) ys n e =
    ground (arith, scan-append base limit (acc * base + (x - 48)) xs ys n)

module _ (base : ℕ) (large : 1 < base) (small : base ≤ 10) where
  digit : (n : ℕ) → IsDigit (48 + n % base)
  digit n = let h : n % base < base = mod-lt n (omega arith) in omega arith

  pub digits-IsDigit : (fuel n : ℕ) → All IsDigit (digits base fuel n)
  unfolding digits
  digits-IsDigit zero n = tt
  digits-IsDigit (suc fuel) n = elim (Bool-cases (ltb n base)) [
    | inl h ↦ rw h (ground arith)
    | inr h ↦ rw h (
        All-append IsDigit (digits base fuel (n / base)) _ (digits-IsDigit fuel (n / base))
          (digit n, tt))
  ]

  one_digit :
      (limit acc d : ℕ)
      → d < base
      → acc * base + d < limit
      → scan base limit acc ((48 + d) ∷ []) ≡ some (acc * base + d)
  unfolding scan
  one_digit limit acc d h l = let e : 48 + d - 48 ≡ d = omega arith in rw (e, scan) (ground arith)

  fuel_pos : (fuel n : ℕ) → n < base ^ suc fuel → base ≤ n → 0 < fuel
  fuel_pos zero n h l = absurd (omega (arith, rw (pow-suc base zero, pow-zero base) at h))
  fuel_pos (suc fuel) n h l = omega arith

  -- Enough fuel is as many digits as the number has.
  pub scan-digits :
      (limit fuel n : ℕ)
      → n < base ^ fuel
      → n < limit
      → 0 < fuel
      → scan base limit 0 (digits base fuel n) ≡ some n
  unfolding digits scan
  scan-digits limit zero n h l f = elim f [ ]
  scan-digits limit (suc fuel) n h l f = elim (Bool-cases (ltb n base)) [
    | inl b ↦ rw b (one_digit limit 0 n (ground arith) (ground arith) ∙ ap some (omega arith))
    | inr b ↦
        let p : base ≤ n = ground arith in
        let q : n / base < base ^ fuel =
          (div-lt_iff_lt-mul {k = base} (omega arith)).1 (rw (← pow-suc base fuel) h) in
        let e = div-add-mod' n base in
        rw b (
          scan-append base limit 0 (digits base fuel (n / base)) _ (n / base) (
            scan-digits limit fuel (n / base) q (omega (arith, div-le_self n base, l))
              (fuel_pos fuel n h p))
          ∙ one_digit limit (n / base) (n % base) (mod-lt n (omega arith)) (rw e l)
          ∙ ap some e)
  ]

-- `{}` and `{:o}` of a `u64`.
unfoldable pub format : ℕ → List ℕ
unfolding digits
format n = digits 10 20 n

unfoldable pub format_octal : ℕ → List ℕ
unfolding digits
format_octal n = digits 8 22 n

unfoldable pub parse_digits : List ℕ → Option ℕ
unfolding scan
parse_digits [] = none
parse_digits (c ∷ cs) = scan 10 (2 ^ 64) 0 (c ∷ cs)

-- `str::parse::<u64>`, which takes one `+` in front. Its error is `none`.
unfoldable pub parse_u64 : List ℕ → Option ℕ
unfolding parse_digits
parse_u64 [] = none
parse_u64 (c ∷ cs) = if c == 43 then parse_digits cs else parse_digits (c ∷ cs)

digits-length : (base fuel n : ℕ) → 0 < length (digits base (suc fuel) n)
unfolding digits
digits-length base fuel n =
    ground (arith, length-append (digits base fuel (n / base)) ((48 + n % base) ∷ []))

parse_u64_digits : (s : List ℕ) → All IsDigit s → 0 < length s → parse_u64 s ≡ scan 10 (2 ^ 64) 0 s
unfolding parse_u64 parse_digits
parse_u64_digits [] a h = absurd (omega arith)
parse_u64_digits (c ∷ cs) a h = elim (Bool-cases (c == 43)) [
  | inl e ↦ absurd (ground (arith, a.0))
  | inr e ↦ rw (e, parse_u64) refl
]

pub format-IsDigit : (n : ℕ) → All IsDigit (format n)
unfolding format
format-IsDigit n = digits-IsDigit 10 (omega arith) (omega arith) 20 n

pub format_octal-IsDigit : (n : ℕ) → All IsDigit (format_octal n)
unfolding format_octal
format_octal-IsDigit n = digits-IsDigit 8 (omega arith) (omega arith) 22 n

pub scan-format : (n : ℕ) → n < 2 ^ 64 → scan 10 (2 ^ 64) 0 (format n) ≡ some n
unfolding format
scan-format n h =
    scan-digits 10 (omega arith) (omega arith) (2 ^ 64) 20 n (omega arith) h (omega arith)

pub scan-format_octal : (n : ℕ) → n < 2 ^ 64 → scan 8 (2 ^ 64) 0 (format_octal n) ≡ some n
unfolding format_octal
scan-format_octal n h =
    scan-digits 8 (omega arith) (omega arith) (2 ^ 64) 22 n (omega arith) h (omega arith)

pub parse_u64-format : (n : ℕ) → n < 2 ^ 64 → parse_u64 (format n) ≡ some n
unfolding format
parse_u64-format n h =
    parse_u64_digits (format n) (format-IsDigit n) (digits-length 10 19 n) ∙ scan-format n h

-- ===== src/Common/Bits.antt =====
-- Masks at a variable: a run of low ones is a remainder, and a run of ones further up is a remainder
-- of the shifted number. Both by the digits of `bit_and`.
use Prim.Native.Nat.{
  ℕ, zero, suc, ◌+◌, ◌*◌, ◌/◌, ◌%◌, ◌≤◌, ◌<◌, min, bit_and, digits, bit_and-bitwise,
}
use mathlib.Core.Path.{◌≡◌, refl, ap, ◌∙◌}
use native.Mathlib.Omega.{arith}
use native.Mathlib.Nat.{
  mod-eq_of_lt, mod-lt, div-add-mod, mul-add-mod_self_left, div-div-eq-div-mul,
}

abbrev digit_and : ℕ → ℕ → ℕ → ℕ
digit_and fuel a b = digits (λ b. zero) min fuel a b

digit_and_more : (n m a b : ℕ) → a ≤ n → a ≤ m → digit_and n a b ≡ digit_and m a b
digit_and_more zero zero a b p q = refl
digit_and_more zero (suc m) zero b p q = refl
digit_and_more zero (suc m) (suc a) b p q = absurd (omega arith)
digit_and_more (suc n) zero zero b p q = refl
digit_and_more (suc n) zero (suc a) b p q = absurd (omega arith)
digit_and_more (suc n) (suc m) zero b p q = refl
digit_and_more (suc n) (suc m) (suc a) b p q =
    omega (arith, digit_and_more n m (suc a / 2) (b / 2) (omega arith) (omega arith))

nothing_and : (b : ℕ) → bit_and 0 b ≡ 0
nothing_and b = bit_and-bitwise 0 b

-- The lowest digit, and the rest.
bit_and_halves : (a b : ℕ) → bit_and a b ≡ bit_and (a / 2) (b / 2) * 2 + min (a % 2) (b % 2)
bit_and_halves zero b = omega (arith, nothing_and b, nothing_and (b / 2))
bit_and_halves (suc a) b = omega (
  arith,
  bit_and-bitwise (suc a) b,
  bit_and-bitwise (suc a / 2) (b / 2),
  digit_and_more a (suc a / 2) (suc a / 2) (b / 2) (omega arith) (omega arith),
)

and_nothing_below : (n a : ℕ) → a ≤ n → bit_and a 0 ≡ 0
and_nothing_below n zero h = refl
and_nothing_below zero (suc a) h = absurd (omega arith)
and_nothing_below (suc n) (suc a) h =
    omega (arith, bit_and_halves (suc a) 0, and_nothing_below n (suc a / 2) (omega arith))

and_nothing : (a : ℕ) → bit_and a 0 ≡ 0
and_nothing a = and_nothing_below a a (omega arith)

abbrev pub pow2 : ℕ → ℕ
pow2 zero = 1
pow2 (suc k) = 2 * pow2 k

-- k ones.
abbrev pub ones : ℕ → ℕ
ones zero = 0
ones (suc k) = 2 * ones k + 1

-- A mask moved up by j places.
abbrev pub moved : ℕ → ℕ → ℕ
moved zero m = m
moved (suc j) m = 2 * moved j m

pow2_pos : (k : ℕ) → 0 < pow2 k
pow2_pos zero = omega arith
pow2_pos (suc k) = omega (arith, pow2_pos k)

mod_double : (a p : ℕ) → 0 < p → a % (2 * p) ≡ a / 2 % p * 2 + a % 2
mod_double a p h =
    ap (λ (t : ℕ). t % (2 * p)) split
    ∙ mul-add-mod_self_left (2 * p) (a / 2 / p) (a / 2 % p * 2 + a % 2)
    ∙ mod-eq_of_lt small
  where
    split : a ≡ 2 * p * (a / 2 / p) + (a / 2 % p * 2 + a % 2)
    split = omega (arith, div-add-mod (a / 2) p)

    small : a / 2 % p * 2 + a % 2 < 2 * p
    small = omega (arith, mod-lt (a / 2) h)

pub bit_and-ones : (k a : ℕ) → bit_and a (ones k) ≡ a % pow2 k
bit_and-ones zero a = omega (arith, and_nothing a)
bit_and-ones (suc k) a = omega (
  arith,
  bit_and_halves a (ones (suc k)),
  ap (bit_and (a / 2)) half,
  bit_and-ones k (a / 2),
  mod_double a (pow2 k) (pow2_pos k),
)
  where
    half : ones (suc k) / 2 ≡ ones k
    half = omega arith

pub bit_and-moved : (j m a : ℕ) → bit_and a (moved j m) ≡ bit_and (a / pow2 j) m * pow2 j
bit_and-moved zero m a = omega (arith, ap (λ (t : ℕ). bit_and t m) whole)
  where
    whole : a / 1 ≡ a
    whole = omega arith
bit_and-moved (suc j) m a = omega (
  arith,
  bit_and_halves a (moved (suc j) m),
  ap (bit_and (a / 2)) half,
  ap (λ (t : ℕ). t * pow2 j) (ap (λ (t : ℕ). bit_and t m) (div-div-eq-div-mul a 2 (pow2 j))),
  bit_and-moved j m (a / 2),
)
  where
    half : moved (suc j) m / 2 ≡ moved j m
    half = omega arith

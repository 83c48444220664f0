-- ===== src/Common/Bytes.antt =====
-- Bytes, machine words as numbers, and exclusive or on bytes.
use Prim.Native.Nat.{ℕ, zero, suc, ◌<◌, bit_and, bit_xor}
use mathlib.Core.Path.{◌≡◌, refl}
use mathlib.Core.Bool.{Bool, true, false, ◌&&◌}
use mathlib.Core.List.{List, [], ◌∷◌}
use native.Mathlib.Omega.{arith}
use protanki_protocol_rs.Common.Tests.{ltb, ◌==◌}

abbrev pub Bytes : Type 0
Bytes = List ℕ

abbrev pub IsByte : ℕ → Type 0
IsByte b = b < 256

abbrev pub IsU16 : ℕ → Type 0
IsU16 b = b < 65536

abbrev pub IsU32 : ℕ → Type 0
IsU32 b = b < 4294967296

abbrev pub IsU64 : ℕ → Type 0
IsU64 b = b < 18446744073709551616

-- Check every value below a bound by evaluation.
unfoldable pub all_below : ℕ → (ℕ → Bool) → Bool
all_below zero p = true
all_below (suc n) p = p n && all_below n p

pub all_below_sound : (n : ℕ) (p : ℕ → Bool) (x : ℕ) → all_below n p ≡ true → x < n → p x ≡ true
unfolding all_below
all_below_sound zero p x h lt = elim lt [ ]
all_below_sound (suc n) p x h lt = ground (arith, all_below_sound n p x)

abbrev xor_row : ℕ → Bool
xor_row x = all_below 256 λ y. bit_xor (bit_xor x y) y == x && ltb (bit_xor x y) 256

xor_table : all_below 256 xor_row ≡ true
unfolding all_below
xor_table = refl

xor_at :
    (x y : ℕ) → IsByte x → IsByte y → (bit_xor (bit_xor x y) y == x && ltb (bit_xor x y) 256) ≡ true
xor_at x y hx hy = all_below_sound 256 _ y (all_below_sound 256 xor_row x xor_table hx) hy

-- A byte comes back after two exclusive ors with the same byte.
pub xor_cancel : (x y : ℕ) → IsByte x → IsByte y → bit_xor (bit_xor x y) y ≡ x
xor_cancel x y hx hy = ground (arith, xor_at x y)

pub xor-IsByte : (x y : ℕ) → IsByte x → IsByte y → IsByte (bit_xor x y)
xor-IsByte x y hx hy = ground (arith, xor_at x y)

offset_table : all_below 8 (λ o. all_below 256 λ v. ltb (bit_xor o (bit_and v 0x7)) 8) ≡ true
unfolding all_below
offset_table = refl

pub xor_low_bits : (o v : ℕ) → o < 8 → IsByte v → bit_xor o (bit_and v 0x7) < 8
xor_low_bits o v ho hv =
    ground (arith, all_below_sound 256 _ v (all_below_sound 8 _ o offset_table ho) hv)

-- Equality of texts by their bytes.
unfoldable pub bytes_eq : Bytes → Bytes → Bool
bytes_eq [] [] = true
bytes_eq [] (b ∷ bs) = false
bytes_eq (a ∷ others) [] = false
bytes_eq (a ∷ others) (b ∷ bs) = a == b && bytes_eq others bs

pub bytes_eq→eq : (a b : Bytes) → bytes_eq a b ≡ true → a ≡ b
unfolding bytes_eq
bytes_eq→eq [] [] h = refl
bytes_eq→eq [] (y ∷ ys) h = cc
bytes_eq→eq (x ∷ xs) [] h = cc
bytes_eq→eq (x ∷ xs) (y ∷ ys) h = ground (arith, bytes_eq→eq xs ys)

pub bytes_eq_refl : (a : Bytes) → bytes_eq a a ≡ true
unfolding bytes_eq
bytes_eq_refl [] = refl
bytes_eq_refl (x ∷ xs) = ground (arith, bytes_eq_refl xs)

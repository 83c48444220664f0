-- ===== src/Tests/Order.antt =====
-- Big-endian bytes: a concrete `ByteOrder`, so its laws can be met.
use native.Mathlib.Nat.{pow-suc}
use protanki_protocol_rs.Common.{
  ℕ, zero, suc, ◌+◌, ◌*◌, ◌/◌, ◌%◌, ◌^◌, ◌<◌, ◌≡◌, refl, ◌∙◌, arith, [], ◌∷◌, ◌++◌, length,
  length-append, All,
}
use protanki_protocol_rs.Common.Bytes.{Bytes, IsByte}
use protanki_protocol_rs.Protocol.Codec.Reader.{All-append}
use protanki_protocol_rs.Protocol.Codec.Primitives.{ByteOrder}

unfoldable pub to_bytes : ℕ → ℕ → Bytes
to_bytes zero v = []
to_bytes (suc n) v = to_bytes n (v / 256) ++ ((v % 256) ∷ [])

unfoldable pub from_digits : ℕ → Bytes → ℕ
from_digits acc [] = acc
from_digits acc (b ∷ bs) = from_digits (acc * 256 + b) bs

from_digits-append :
    (acc : ℕ) (xs ys : Bytes) → from_digits acc (xs ++ ys) ≡ from_digits (from_digits acc xs) ys
unfolding from_digits
from_digits-append acc [] ys = refl
from_digits-append acc (x ∷ xs) ys = from_digits-append (acc * 256 + x) xs ys

pub length_lem : (n v : ℕ) → length (to_bytes n v) ≡ n
unfolding to_bytes
length_lem zero v = refl
length_lem (suc n) v =
    length-append (to_bytes n (v / 256)) ((v % 256) ∷ []) ∙ omega (arith, length_lem n (v / 256))

pub bytes_lem : (n v : ℕ) → All IsByte (to_bytes n v)
unfolding to_bytes
bytes_lem zero v = tt
bytes_lem (suc n) v =
    All-append (to_bytes n (v / 256)) ((v % 256) ∷ []) (bytes_lem n (v / 256)) (omega arith, tt)

pub back_lem : (n v : ℕ) → v < 256 ^ n → from_digits 0 (to_bytes n v) ≡ v
unfolding to_bytes from_digits
back_lem zero v h = omega arith
back_lem (suc n) v h =
    from_digits-append 0 (to_bytes n (v / 256)) ((v % 256) ∷ [])
    ∙ omega (arith, back_lem n (v / 256) (omega (arith, pow-suc 256 n)))

pub append_lem :
    (bytes : Bytes) (b : ℕ) → from_digits 0 (bytes ++ (b ∷ [])) ≡ from_digits 0 bytes * 256 + b
unfolding from_digits
append_lem bytes b = from_digits-append 0 bytes (b ∷ [])

pub nil_lem : from_digits 0 [] ≡ 0
unfolding from_digits
nil_lem = refl

instance abbrev pub big_endian : ByteOrder
big_endian = record {
  to_bytes = to_bytes;
  from_bytes = from_digits 0;
  length-to_bytes = length_lem;
  to_bytes-IsByte = bytes_lem;
  from_bytes-to_bytes = back_lem;
  from_bytes-nil = nil_lem;
  from_bytes-append = append_lem;
}

-- ===== src/Protocol/Crypto.antt =====
-- protocol/src/crypto: the plain cipher and the XOR stream cipher. A buffer that the source
-- changes in place is an argument and part of the result.
pub mod KeySync
use Prim.Native.Nat.{bit_and, bit_xor}
use mathlib.Core.List.{foldl}
use protanki_protocol_rs.Common.{
  ℕ, ◌*◌, ◌%◌, List, [], ◌∷◌, Option, none, some, get_elem?, set, replicate,
}
use protanki_protocol_rs.Common.Bytes.{Bytes}
use protanki_protocol_rs.Protocol.Error.{ProtocolResult, ok, panic, ◌>>=◌}

pub data CipherMode : Type 0 where
  server client : CipherMode

pub record PlainCipher : Type 0 where
  pub mode : CipherMode

pub record XOrCipher : Type 0 where
  pub mode : CipherMode
  pub decrypt_key : Bytes
  pub decrypt_key_offset : ℕ
  pub encrypt_key : Bytes
  pub encrypt_key_offset : ℕ

-- `seed ^ index << 3`: the shift of the `u8` binds first.
unfoldable pub key_byte : ℕ → ℕ → ℕ
key_byte seed index = bit_xor seed (index * 8 % 256)

-- The loop over `index`, with the keys of decryption and encryption.
unfoldable pub derive_keys : CipherMode → ℕ → List ℕ → Bytes × Bytes → Bytes × Bytes
unfolding key_byte
derive_keys mode seed [] keys = keys
derive_keys CipherMode.server seed (i ∷ is) (dec, enc) =
    derive_keys CipherMode.server seed is
      (set dec i (bit_xor (key_byte seed i) 87), set enc i (key_byte seed i))
derive_keys CipherMode.client seed (i ∷ is) (dec, enc) =
    derive_keys CipherMode.client seed is
      (set dec i (key_byte seed i), set enc i (bit_xor (key_byte seed i) 87))

abbrev pub key_indices : List ℕ
key_indices = 0 ∷ 1 ∷ 2 ∷ 3 ∷ 4 ∷ 5 ∷ 6 ∷ 7 ∷ []

unfoldable pub new_seed : Bytes → ℕ
new_seed = foldl bit_xor 0

unfoldable pub new : CipherMode → Bytes → XOrCipher
unfolding derive_keys new_seed
new mode key =
    let keys = derive_keys mode (new_seed key) key_indices (replicate 8 0, replicate 8 0) in
    record {
      mode = mode;
      decrypt_key = keys.0;
      decrypt_key_offset = 0;
      encrypt_key = keys.1;
      encrypt_key_offset = 0;
    }

-- An index out of the key's bounds panics.
abbrev pub index_key : Bytes → ℕ → ProtocolResult ℕ
index_key key i = elim (get_elem? key i) [ none ↦ panic | some k ↦ ok k ]

-- The loops of `encrypt` and `decrypt` over the rest of the buffer: key, offset and bytes out.
unfoldable pub encrypt_loop : Bytes → ℕ → Bytes → ProtocolResult (Bytes × ℕ × Bytes)
encrypt_loop key offset [] = ok (key, offset, [])
encrypt_loop key offset (value ∷ buffer) = do
  k ← index_key key offset
  (key', offset', out) ←
      encrypt_loop (set key offset value) (bit_xor offset (bit_and value 0x7)) buffer
  ok (key', offset', bit_xor value k ∷ out)

unfoldable pub decrypt_loop : Bytes → ℕ → Bytes → ProtocolResult (Bytes × ℕ × Bytes)
decrypt_loop key offset [] = ok (key, offset, [])
decrypt_loop key offset (value ∷ buffer) = do
  k ← index_key key offset
  (key', offset', out) ←
      decrypt_loop (set key offset (bit_xor value k))
        (bit_xor offset (bit_and (bit_xor value k) 0x7)) buffer
  ok (key', offset', bit_xor value k ∷ out)

unfoldable pub xor_encrypt : XOrCipher → Bytes → ProtocolResult (XOrCipher × Bytes)
xor_encrypt c buffer = do
  (key, offset, out) ← encrypt_loop c.encrypt_key c.encrypt_key_offset buffer
  ok (record c { encrypt_key = key; encrypt_key_offset = offset }, out)

unfoldable pub xor_decrypt : XOrCipher → Bytes → ProtocolResult (XOrCipher × Bytes)
xor_decrypt c buffer = do
  (key, offset, out) ← decrypt_loop c.decrypt_key c.decrypt_key_offset buffer
  ok (record c { decrypt_key = key; decrypt_key_offset = offset }, out)

-- `Box<dyn Cipher>`: one of the two implementations.
pub data Cipher : Type 0 where
  plain : PlainCipher → Cipher
  xor : XOrCipher → Cipher

unfoldable pub encrypt : Cipher → Bytes → ProtocolResult (Cipher × Bytes)
unfolding xor_encrypt
encrypt (plain c) buffer = ok (plain c, buffer)
encrypt (xor c) buffer = do (c', out) ← xor_encrypt c buffer; ok (xor c', out)

unfoldable pub decrypt : Cipher → Bytes → ProtocolResult (Cipher × Bytes)
unfolding xor_decrypt
decrypt (plain c) buffer = ok (plain c, buffer)
decrypt (xor c) buffer = do (c', out) ← xor_decrypt c buffer; ok (xor c', out)

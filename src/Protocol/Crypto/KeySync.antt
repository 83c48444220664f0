-- ===== src/Protocol/Crypto/KeySync.antt =====
-- The receiver's key follows the sender's (`XOrCipher` and the `Cipher` trait of protocol/src/crypto):
-- steps, whole buffers, and runs of buffers.
use Prim.Native.Nat.{bit_and, bit_xor}
use mathlib.Core.List.{foldl}
use protanki_protocol_rs.Common.{
  ℕ, zero, suc, ◌*◌, ◌%◌, ◌<◌, ◌≡◌, refl, ap, ◌∙◌, arith, [], ◌∷◌, length, set, All, some,
  get_elem?, get_elem?-lt, length-set,
}
use protanki_protocol_rs.Common.Bytes.{Bytes, IsByte, xor_cancel, xor-IsByte, xor_low_bits}
use protanki_protocol_rs.Protocol.Error.{ok}
use protanki_protocol_rs.Protocol.Crypto.{
  CipherMode, XOrCipher, Cipher, plain, xor, new, new_seed, derive_keys, key_byte, encrypt_loop,
  decrypt_loop, xor_encrypt, xor_decrypt, encrypt, decrypt,
}

-- A key of eight bytes and an offset into it.
pub record IsKey (key : Bytes) (offset : ℕ) : Type 0 where
  pub eight : length key ≡ 8
  pub bytes : All IsByte key
  pub inside : offset < 8

All-set : (xs : Bytes) (i v : ℕ) → All IsByte xs → IsByte v → All IsByte (set xs i v)
All-set [] i v h hv = tt
All-set (x ∷ xs) zero v h hv = (hv, h.1)
All-set (x ∷ xs) (suc i) v h hv = (h.0, All-set xs i v h.1 hv)

All-get_elem? : (xs : Bytes) (i k : ℕ) → All IsByte xs → get_elem? xs i ≡ some k → IsByte k
All-get_elem? [] i k h e = cc
All-get_elem? (x ∷ xs) zero k h e = ground (arith, h.0)
All-get_elem? (x ∷ xs) (suc i) k h e = All-get_elem? xs i k h.1 e

-- One byte keeps the key and the offset in shape.
IsKey-step :
    (key : Bytes) (offset v : ℕ)
    → IsKey key offset
    → IsByte v
    → IsKey (set key offset v) (bit_xor offset (bit_and v 0x7))
IsKey-step key offset v k hv = record {
  eight = length-set key offset v ∙ k.eight;
  bytes = All-set key offset v k.bytes hv;
  inside = xor_low_bits offset v k.inside hv;
}

-- What the two loops make of one buffer from the same key and offset.
pub record Lockstep (key : Bytes) (offset : ℕ) (buffer : Bytes) : Type 0 where
  pub key' : Bytes
  pub offset' : ℕ
  pub out : Bytes
  pub encrypts : encrypt_loop key offset buffer ≡ ok (key', offset', out)
  pub decrypts : decrypt_loop key offset out ≡ ok (key', offset', buffer)
  pub shape : IsKey key' offset'
  pub bytes : All IsByte out
  pub same_length : length out ≡ length buffer

Lockstep-step :
    (key : Bytes) (offset v k : ℕ) (buffer : Bytes)
    → get_elem? key offset ≡ some k
    → IsByte v
    → IsByte k
    → Lockstep (set key offset v) (bit_xor offset (bit_and v 0x7)) buffer
    → Lockstep key offset (v ∷ buffer)
unfolding encrypt_loop decrypt_loop
Lockstep-step key offset v k buffer e hv hk s = record {
  key' = s.key';
  offset' = s.offset';
  out = bit_xor v k ∷ s.out;
  encrypts = ground (arith, e, s.encrypts);
  decrypts = ground (arith, e, xor_cancel v k hv hk, s.decrypts);
  shape = s.shape;
  bytes = (xor-IsByte v k hv hk, s.bytes);
  same_length = ap suc s.same_length;
}

-- Both loops end on every buffer of bytes, the second undoes the first, and they leave the same key.
pub lockstep :
    (buffer key : Bytes) (offset : ℕ)
    → IsKey key offset
    → All IsByte buffer
    → Lockstep key offset buffer
unfolding encrypt_loop decrypt_loop
lockstep [] key offset k h = record {
  key' = key;
  offset' = offset;
  out = [];
  encrypts = refl;
  decrypts = refl;
  shape = k;
  bytes = tt;
  same_length = refl;
}
lockstep (v ∷ buffer) key offset k h =
    let (b, e) = get_elem?-lt key offset (omega (arith, k.eight, k.inside)) in
    Lockstep-step key offset v b buffer e h.0 (All-get_elem? key offset b k.bytes e)
      (lockstep buffer _ _ (IsKey-step key offset v k h.0) h.1)

-- What `sender` encrypts `receiver` can decrypt.
pub data Paired : Cipher → Cipher → Type 0 where
  both_plain : (a b : _) → Paired (plain a) (plain b)
  both_xor :
      (a b : XOrCipher)
      → a.encrypt_key ≡ b.decrypt_key
      → a.encrypt_key_offset ≡ b.decrypt_key_offset
      → IsKey b.decrypt_key b.decrypt_key_offset
      → Paired (xor a) (xor b)

-- A buffer sent from `sender` to `receiver`, with the ciphers afterwards.
pub record Sent (sender receiver : Cipher) (buffer : Bytes) : Type 0 where
  pub sender' : Cipher
  pub receiver' : Cipher
  pub wire : Bytes
  pub encrypts : encrypt sender buffer ≡ ok (sender', wire)
  pub decrypts : decrypt receiver wire ≡ ok (receiver', buffer)
  pub paired : Paired sender' receiver'
  pub bytes : All IsByte wire
  pub same_length : length wire ≡ length buffer

-- Paired ciphers carry any buffer of bytes over unchanged, keep its length, and stay paired.
pub decrypt-encrypt :
    (sender receiver : Cipher) (buffer : Bytes)
    → Paired sender receiver
    → All IsByte buffer
    → Sent sender receiver buffer
unfolding encrypt decrypt xor_encrypt xor_decrypt
decrypt-encrypt (plain a) (plain b) buffer p h = record {
  sender' = plain a;
  receiver' = plain b;
  wire = buffer;
  encrypts = refl;
  decrypts = refl;
  paired = p;
  bytes = h;
  same_length = refl;
}
decrypt-encrypt (xor a) (plain b) buffer p h = elim p [ ]
decrypt-encrypt (plain a) (xor b) buffer p h = elim p [ ]
decrypt-encrypt (xor a) (xor b) buffer (both_xor _ _ ek eo k) h =
    let s = lockstep buffer b.decrypt_key b.decrypt_key_offset k h in
    record {
      sender' = xor (record a { encrypt_key = s.key'; encrypt_key_offset = s.offset' });
      receiver' = xor (record b { decrypt_key = s.key'; decrypt_key_offset = s.offset' });
      wire = s.out;
      encrypts = rw (ek, eo, s.encrypts);
      decrypts = rw s.decrypts;
      paired = both_xor _ _ refl refl s.shape;
      bytes = s.bytes;
      same_length = s.same_length;
    }

-- Keys that `XOrCipher::new` derives.
foldl-IsByte : (key : Bytes) (a : ℕ) → IsByte a → All IsByte key → IsByte (foldl bit_xor a key)
foldl-IsByte [] a ha h = ha
foldl-IsByte (k ∷ key) a ha h = foldl-IsByte key (bit_xor a k) (xor-IsByte a k ha h.0) h.1

new_seed-IsByte : (key : Bytes) → All IsByte key → IsByte (new_seed key)
unfolding new_seed
new_seed-IsByte key h = foldl-IsByte key 0 (omega arith) h

key_byte-IsByte : (seed i : ℕ) → IsByte seed → IsByte (key_byte seed i)
unfolding key_byte
key_byte-IsByte seed i h = xor-IsByte seed (i * 8 % 256) h (omega arith)

mixed-IsByte : (seed i : ℕ) → IsByte seed → IsByte (bit_xor (key_byte seed i) 87)
mixed-IsByte seed i h = xor-IsByte _ 87 (key_byte-IsByte seed i h) (omega arith)

eight-IsKey :
    (a b c d e f g h : ℕ)
    → IsByte a
    → IsByte b
    → IsByte c
    → IsByte d
    → IsByte e
    → IsByte f
    → IsByte g
    → IsByte h
    → IsKey (a ∷ b ∷ c ∷ d ∷ e ∷ f ∷ g ∷ h ∷ []) 0
eight-IsKey a b c d e f g h = λ pa pb pc pd pe pf pg ph. record {
  eight = refl;
  bytes = (pa, (pb, (pc, (pd, (pe, (pf, (pg, (ph, tt))))))));
  inside = omega arith;
}

-- `XOrCipher::new` on the two sides of a connection, from one key of bytes, gives ciphers that are
-- paired in both directions.
pub new-Paired :
    (key : Bytes)
    → All IsByte key
    → Paired (xor (new CipherMode.server key)) (xor (new CipherMode.client key))
      × Paired (xor (new CipherMode.client key)) (xor (new CipherMode.server key))
unfolding new derive_keys
new-Paired key h =
    let p = λ (i : ℕ). key_byte-IsByte (new_seed key) i (new_seed-IsByte key h) in
    let m = λ (i : ℕ). mixed-IsByte (new_seed key) i (new_seed-IsByte key h) in
    (
      both_xor _ _ refl refl
          (eight-IsKey _ _ _ _ _ _ _ _ (p 0) (p 1) (p 2) (p 3) (p 4) (p 5) (p 6) (p 7)),
      both_xor _ _ refl refl
          (eight-IsKey _ _ _ _ _ _ _ _ (m 0) (m 1) (m 2) (m 3) (m 4) (m 5) (m 6) (m 7)),
    )

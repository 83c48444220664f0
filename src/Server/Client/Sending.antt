-- ===== src/Server/Client/Sending.antt =====
-- When sending a packet fails, and what it leaves as it was.
use protanki_protocol_rs.Common.{
  ℕ, zero, suc, ◌≡◌, refl, [], ◌∷◌, Bool-cases, inl, inr, leb, length, set, ◌&&◌,
}
use Prim.Native.Nat.{bit_xor, bit_and}
use protanki_protocol_rs.Common.Bytes.{Bytes}
use protanki_protocol_rs.Protocol.Error
use protanki_protocol_rs.Protocol.Error.{ProtocolResult, ok, err, panic, ProtocolError}
use protanki_protocol_rs.Protocol.Codec.Primitives.{ByteOrder}
use protanki_protocol_rs.Protocol.Crypto.{
  Cipher, plain, xor, encrypt, xor_encrypt, encrypt_loop, index_key,
}
use protanki_protocol_rs.Protocol.Connection
use protanki_protocol_rs.Protocol.Connection.{Connection, slice, clear_frame}

-- A value that satisfies Q, a panic, or an error, where E allows one.
abbrev pub Ends : {A : Type 0} → (A → Type 0) → Type 0 → ProtocolResult A → Type 0
Ends Q E (ok a) = Q a
Ends Q E (err e) = E
Ends Q E panic = Unit {0}

Ends-bind :
    {A B : Type 0} (Q : B → Type 0) (E : Type 0) (m : ProtocolResult A) (f : A → ProtocolResult B)
    → Ends (λ a. Unit {0}) E m
    → ((a : A) → Ends Q E (f a))
    → Ends Q E (Error.◌>>=◌ m f)
Ends-bind Q E (ok a) f h k = k a
Ends-bind Q E (err e) f h k = h
Ends-bind Q E panic f h k = tt

pub Ends-any : {A : Type 0} (r : ProtocolResult A) → Ends (λ a. Unit {0}) (Unit {0}) r
Ends-any (ok a) = tt
Ends-any (err e) = tt
Ends-any panic = tt

slice-Ends :
    (E : Type 0) (low high : ℕ) (buffer : Bytes) → Ends (λ a. Unit {0}) E (slice low high buffer)
unfolding slice
slice-Ends E low high buffer = elim (Bool-cases (leb low high && leb high (length buffer))) [
  | inl h ↦ rw h tt
  | inr h ↦ rw h tt
]

index_key-Ends : (E : Type 0) (key : Bytes) (i : ℕ) → Ends (λ a. Unit {0}) E (index_key key i)
index_key-Ends E [] i = tt
index_key-Ends E (k ∷ key) zero = tt
index_key-Ends E (k ∷ key) (suc i) = index_key-Ends E key i

encrypt_loop-Ends :
    (E : Type 0) (buffer : Bytes) (key : Bytes) (offset : ℕ)
    → Ends (λ a. Unit {0}) E (encrypt_loop key offset buffer)
unfolding encrypt_loop
encrypt_loop-Ends E [] key offset = tt
encrypt_loop-Ends E (v ∷ buffer) key offset =
    Ends-bind _ E (index_key key offset) _ (index_key-Ends E key offset) λ k.
      Ends-bind _ E (encrypt_loop (set key offset v) (bit_xor offset (bit_and v 0x7)) buffer) _
        (encrypt_loop-Ends E buffer (set key offset v) (bit_xor offset (bit_and v 0x7))) λ r. tt

encrypt-Ends :
    (E : Type 0) (c : Cipher) (buffer : Bytes) → Ends (λ a. Unit {0}) E (encrypt c buffer)
unfolding encrypt xor_encrypt
encrypt-Ends E (plain c) buffer = tt
encrypt-Ends E (xor c) buffer =
    Ends-bind _ E (xor_encrypt c buffer) _
      (Ends-bind _ E (encrypt_loop c.encrypt_key c.encrypt_key_offset buffer) _
        (encrypt_loop-Ends E buffer c.encrypt_key c.encrypt_key_offset) λ r. tt)
      λ r. tt

-- What a sent packet leaves of the receiving side.
abbrev pub KeepsInput : {P : Type 0} → Connection P → Connection P → Type 0
KeepsInput c d =
    (d.recv_buffer_index ≡ c.recv_buffer_index) × (d.is_disconnected ≡ c.is_disconnected)

module _ {P : Type 0} ⦃order : ByteOrder⦄ (packet_id : P → ℕ)
    (encode : P → ProtocolResult Bytes) where
  pub connection_send-Ends :
      (E : Type 0) (c : Connection P) (p : P)
      → Ends (λ a. Unit {0}) E (encode p)
      → Ends (KeepsInput c) E (Connection.send_packet packet_id encode c p)
  unfolding Connection.send_packet
  connection_send-Ends E c p h = Ends-bind (KeepsInput c) E (encode p) _ h λ payload.
      let buffer = clear_frame (packet_id p) payload in
      Ends-bind (KeepsInput c) E (slice 8 (length buffer) buffer) _
        (slice-Ends E 8 (length buffer) buffer)
        λ body.
          Ends-bind (KeepsInput c) E (encrypt c.crypt_context body) _
            (encrypt-Ends E c.crypt_context body) λ r. (refl, refl)

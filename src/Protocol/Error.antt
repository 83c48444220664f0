-- ===== src/Protocol/Error.antt =====
-- protocol/src/error.rs, and the result of the crate's functions.
use protanki_protocol_rs.Common.{ℕ, ◌≡◌, refl, ◌⊎◌, inl, inr}

-- What `std::io::Error` distinguishes here: the end of the input, and any other error by its code.
pub data IoError : Type 0 where
  unexpected_eof : IoError
  os_error : ℕ → IoError

pub data ConnectionClosedError : Type 0 where
  disconnected : ConnectionClosedError
  read_error : IoError → ConnectionClosedError
  write_error : IoError → ConnectionClosedError

-- `Utf8Error` carries a position for messages only and is left out. A type's name, which
-- `EnumInvalidOrdinal` carries for messages only, is left out too.
pub data ProtocolError : Type 0 where
  crypto_error : ProtocolError
  packet_unknown_id : ℕ → ProtocolError
  packet_too_large : ℕ → ProtocolError
  packet_too_small : ℕ → ProtocolError
  codec_var_int_too_large : ProtocolError
  codec_utf8_decode_error : ProtocolError
  enum_invalid_ordinal : ℕ → ProtocolError
  enum_unknown : ProtocolError
  io_error : IoError → ProtocolError
  connection_closed : ConnectionClosedError → ProtocolError
  connection_aborted : ProtocolError
  unexpected_packet : ProtocolError
  generic_error : ProtocolError

-- `ProtocolResult<T>`, and `panic` for a call that does not return, as an index out of bounds.
pub data ProtocolResult {ℓ} (A : Type ℓ) : Type ℓ where
  ok : A → ProtocolResult A
  err : ProtocolError → ProtocolResult A
  panic : ProtocolResult A

infixl 5 ◌>>=◌
abbrev pub ◌>>=◌ {ℓ κ} :
    {A : Type ℓ} {B : Type κ} → ProtocolResult A → (A → ProtocolResult B) → ProtocolResult B
ok a >>= f = f a
err e >>= f = err e
panic >>= f = panic

pub ProtocolResult-cases {ℓ} :
    {A : Type ℓ} (r : ProtocolResult A)
    → ((a : A) × (r ≡ ok a)) ⊎ ((e : ProtocolError) × (r ≡ err e)) ⊎ (r ≡ panic)
ProtocolResult-cases (ok a) = inl (a, refl)
ProtocolResult-cases (err e) = inr (inl (e, refl))
ProtocolResult-cases panic = inr (inr refl)

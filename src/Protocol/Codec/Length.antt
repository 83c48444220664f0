-- ===== src/Protocol/Codec/Length.antt =====
-- `Length` of protocol/src/codec/basics.rs: a number of one, two or three bytes.
pub mod Limits
use Prim.Native.Nat.{bit_and}
use protanki_protocol_rs.Common.{ℕ, ◌+◌, ◌*◌, ◌/◌, ◌%◌, ltb, ◌==◌, if◌then◌else◌, []}
use protanki_protocol_rs.Common.Bytes.{Bytes}
use protanki_protocol_rs.Protocol.Error.{ProtocolResult, ok, err, codec_var_int_too_large}
use protanki_protocol_rs.Protocol.Codec.Reader.{Reader, pure, ◌>>=◌, ◌⧺◌, Codec}
use protanki_protocol_rs.Protocol.Codec.Primitives.{ByteOrder, u8}

module _ ⦃order : ByteOrder⦄ where
  unfoldable pub encode_length : ℕ → ProtocolResult Bytes
  encode_length target =
      if ltb target 128
      then u8.encode (target % 256)
      else if ltb target 16384
      then (let encoded = bit_and target 16383 + 32768 in
          u8.encode (bit_and encoded 65280 / 256 % 256)
          ⧺ u8.encode (bit_and encoded 255 % 256)
          ⧺ ok [])
      else if ltb target 4194304
      then (let encoded = bit_and target 4194303 + 12582912 in
          u8.encode (bit_and encoded 16711680 / 65536 % 256)
          ⧺ u8.encode (bit_and encoded 65280 / 256 % 256)
          ⧺ u8.encode (bit_and encoded 255 % 256)
          ⧺ ok [])
      else err codec_var_int_too_large

  unfoldable pub third_byte : ℕ → ℕ → Reader ℕ
  third_byte v0 v1 = do v2 ← u8.decode; pure (v0 * 65536 + v1 * 256 + v2)

  unfoldable pub second_byte : ℕ → Reader ℕ
  unfolding third_byte
  second_byte v0 = do
    v1 ← u8.decode
    if bit_and v1 64 == 0 then pure (v0 * 256 + v1) else third_byte v0 v1

  unfoldable pub first_byte : ℕ → Reader ℕ
  unfolding second_byte
  first_byte v0 = if bit_and v0 128 == 0 then pure v0 else second_byte v0

  unfoldable pub length : Codec ℕ
  unfolding encode_length first_byte
  length = record {
    encode = encode_length;
    decode = do
      v0 ← u8.decode
      first_byte v0;
  }

-- ===== src/Protocol/Codec/Length/Limits.antt =====
-- For which numbers `Length` of protocol/src/codec/basics.rs is read back as it was written.
use Prim.Native.Nat.{bit_and}
use mathlib.Core.Logic.{◌↔◌}
use mathlib.Core.Path.{subst}
use protanki_protocol_rs.Common.{
  ℕ, ◌+◌, ◌*◌, ◌/◌, ◌%◌, ◌≤◌, ◌<◌, ◌≡◌, ◌≢◌, refl, ap, ◌∙◌, arith, Bool, true, false, List, [], ◌∷◌,
  ◌++◌, append-nil, ltb, ◌==◌, if◌then◌else◌, ◌||◌, ◌&&◌, not, Bool-cases, inl, inr, lt→ltb,
}
use native.Mathlib.Decide.{dec_lt}
use protanki_protocol_rs.Common
use protanki_protocol_rs.Common.Bytes.{Bytes, all_below, all_below_sound}
use protanki_protocol_rs.Common.Bits.{bit_and-ones, bit_and-moved}
use protanki_protocol_rs.Protocol.Error.{
  ProtocolResult, ok, err, io_error, unexpected_eof, codec_var_int_too_large,
}
use protanki_protocol_rs.Protocol.Codec.Reader.{
  pure, read_exact, ◌>>=◌, ◌⧺◌, Carries, Carries-pure, Carries-end,
}
use protanki_protocol_rs.Protocol.Codec.Primitives.{ByteOrder, u8, u8-RoundTrips}
use protanki_protocol_rs.Protocol.Codec.Length.{length, encode_length, first_byte, second_byte}

-- Whether the marker bit of a first byte is clear.
abbrev top_bit_row : ℕ → Bool
top_bit_row b = if ltb b 128 then bit_and b 128 == 0 else not (bit_and b 128 == 0)

top_bit_table : all_below 256 top_bit_row ≡ true
unfolding all_below
top_bit_table = refl

top_bit_at : (b : ℕ) → b < 256 → top_bit_row b ≡ true
top_bit_at b h = all_below_sound 256 top_bit_row b top_bit_table h

-- The masks of `encode`.
low14 : (t : ℕ) → bit_and t 16383 ≡ t % 16384
low14 = bit_and-ones 14

low22 : (t : ℕ) → bit_and t 4194303 ≡ t % 4194304
low22 = bit_and-ones 22

low8 : (t : ℕ) → bit_and t 255 ≡ t % 256
low8 = bit_and-ones 8

second8 : (t : ℕ) → bit_and t 65280 ≡ t / 256 % 256 * 256
second8 t = bit_and-moved 8 255 t ∙ ap (λ (r : ℕ). r * 256) (low8 (t / 256))

third8 : (t : ℕ) → bit_and t 16711680 ≡ t / 65536 % 256 * 65536
third8 t = bit_and-moved 16 255 t ∙ ap (λ (r : ℕ). r * 65536) (low8 (t / 65536))

small_byte : (t : ℕ) → t < 128 → t % 256 ≡ t
small_byte t h = omega arith

module _ ⦃order : ByteOrder⦄ where
  u8_reads :
      (v : ℕ) (rest : Bytes) → v < 256 → u8.decode (order.to_bytes 1 v ++ rest) ≡ ok (v, rest)
  unfolding u8
  u8_reads v rest h =
      let c = u8-RoundTrips v h in
      subst (λ w. u8.decode (w ++ rest) ≡ ok (v, rest)) (cc (c.writes)) (c.reads rest)

  u8_eof : u8.decode [] ≡ err (io_error unexpected_eof)
  unfolding u8 read_exact ◌>>=◌
  u8_eof = refl

  first_byte_small : (t : ℕ) → t < 128 → first_byte t ≡ pure t
  unfolding first_byte
  first_byte_small t h = elim (Bool-cases (bit_and t 128 == 0)) [
    | inl e ↦ rw (e, first_byte) refl
    | inr e ↦ absurd (ground (arith, e, top_bit_at t))
  ]

  first_byte_large : (t : ℕ) → 128 ≤ t → t < 256 → first_byte t ≡ second_byte t
  unfolding first_byte
  first_byte_large t h k = elim (Bool-cases (bit_and t 128 == 0)) [
    | inl e ↦ absurd (ground (arith, e, top_bit_at t))
    | inr e ↦ rw (e, first_byte) refl
  ]

  small-Carries : (t : ℕ) → t < 128 → Carries length.decode (length.encode t) t
  unfolding length encode_length
  small-Carries t h =
      rw (lt→ltb t 128 h, encode_length, small_byte t h)
        (Carries-end _ t (u8-RoundTrips t (omega arith))
          (rw (first_byte_small t h) (Carries-pure t)))

  decode_two :
      (b0 b1 t : ℕ)
      → b0 < 256
      → b1 < 256
      → 128 ≤ b0
      → t < 32768
      → length.decode (order.to_bytes 1 b0 ++ (order.to_bytes 1 b1 ++ [])) ≢ ok (t, [])
  unfolding length ◌>>=◌ pure second_byte
  decode_two b0 b1 t h0 h1 top small e = ground (
    arith,
    u8_reads b0 (order.to_bytes 1 b1 ++ []),
    u8_reads b1 [],
    first_byte_large b0,
    u8_eof,
    e,
  )

  decode_three :
      (b0 b1 b2 t : ℕ)
      → b0 < 256
      → b1 < 256
      → b2 < 256
      → 192 ≤ b0
      → t < 4194304
      → length.decode (order.to_bytes 1 b0 ++ (order.to_bytes 1 b1 ++ (order.to_bytes 1 b2 ++ [])))
        ≢ ok (t, [])
  unfolding length ◌>>=◌ pure second_byte
  decode_three b0 b1 b2 t h0 h1 h2 top small e = ground (
    arith,
    u8_reads b0 (order.to_bytes 1 b1 ++ (order.to_bytes 1 b2 ++ [])),
    u8_reads b1 (order.to_bytes 1 b2 ++ []),
    u8_reads b2 [],
    first_byte_large b0,
    u8_eof,
    ap Common.length (append-nil (order.to_bytes 1 b2)),
    order.length-to_bytes 1 b2,
    e,
  )

  encode_two :
      (t : ℕ)
      → 128 ≤ t
      → t < 16384
      → length.encode t
        ≡ ok (order.to_bytes 1 (128 + t / 256) ++ (order.to_bytes 1 (t % 256) ++ []))
  unfolding length encode_length u8 ◌⧺◌
  encode_two t h k =
      ground (arith, low14 t, second8 (bit_and t 16383 + 32768), low8 (bit_and t 16383 + 32768))

  encode_three :
      (t : ℕ)
      → 16384 ≤ t
      → t < 4194304
      → length.encode t
        ≡ ok (
            order.to_bytes 1 (192 + t / 65536)
            ++ (order.to_bytes 1 (t / 256 % 256) ++ (order.to_bytes 1 (t % 256) ++ [])))
  unfolding length encode_length u8 ◌⧺◌
  encode_three t h k = ground (
    arith,
    low22 t,
    third8 (bit_and t 4194303 + 12582912),
    second8 (bit_and t 4194303 + 12582912),
    low8 (bit_and t 4194303 + 12582912),
  )

  encode_too_large : (t : ℕ) → 4194304 ≤ t → length.encode t ≡ err codec_var_int_too_large
  unfolding length encode_length
  encode_too_large t h = ground arith

  -- What was written, when the reader takes all of it.
  reads_whole :
      {w : ProtocolResult Bytes} {t : ℕ} (bytes : Bytes)
      → Carries length.decode w t
      → w ≡ ok bytes
      → length.decode bytes ≡ ok (t, [])
  reads_whole {t} bytes c e =
      subst (λ b. length.decode b ≡ ok (t, [])) (append-nil c.written ∙ cc (c.writes, e))
        (c.reads [])

  carried-lt : (t : ℕ) → Carries length.decode (length.encode t) t → t < 128
  carried-lt t c = elim (dec_lt t 128) [
    | yes h ↦ h
    | no h ↦ elim (dec_lt t 16384) [
      | yes k ↦ absurd (
          decode_two (128 + t / 256) (t % 256) t (omega arith) (omega arith) (omega arith)
            (omega arith) (reads_whole _ c (encode_two t (omega arith) k)))
      | no k ↦ elim (dec_lt t 4194304) [
        | yes l ↦ absurd (
            decode_three (192 + t / 65536) (t / 256 % 256) (t % 256) t (omega arith) (omega arith)
              (omega arith) (omega arith) l (reads_whole _ c (encode_three t (omega arith) l)))
        | no l ↦ absurd (cc (c.writes, encode_too_large t (omega arith)))
      ]
    ]
  ]

  -- A length is read back as it was written exactly if it is below 128: from there on the marker
  -- bits that `encode` adds stay in the number that `decode` returns.
  pub length-Carries_iff : (t : ℕ) → Carries length.decode (length.encode t) t ↔ (t < 128)
  length-Carries_iff t = (carried-lt t, small-Carries t)

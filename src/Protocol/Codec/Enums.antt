-- ===== src/Protocol/Codec/Enums.antt =====
-- The macro `codec_enum!` of protocol/src/codec/enums.rs over the two matches that it writes out for
-- each enum: from a variant to its number, and from a number to its variant.
pub mod Lobby
pub mod Battle
pub mod Numbering
use protanki_protocol_rs.Common.{ℕ, ◌+◌, ◌-◌, ◌^◌, ◌≡◌, [], Option, none, some, ltb, if◌then◌else◌}
use protanki_protocol_rs.Common.Bytes.{Bytes, IsU32}
use protanki_protocol_rs.Protocol.Error.{
  ProtocolResult, ok, err, enum_unknown, enum_invalid_ordinal,
}
use protanki_protocol_rs.Protocol.Codec.Reader.{
  Reader, pure, fail, ◌>>=◌, Codec, Carries, RoundTrips, Carries-pure, Carries-bind, Carries-end,
}
use protanki_protocol_rs.Protocol.Codec.Primitives.{ByteOrder, i32, i32-RoundTrips}

-- `value as u64` of an `i32`.
unfoldable pub i32_as_u64 : ℕ → ℕ
i32_as_u64 v = if ltb v (2 ^ 31) then v else v + (2 ^ 64 - 2 ^ 32)

abbrev pub IsKnown : {E : Type 0} → (E → Option ℕ) → E → Type 0
IsKnown ordinal v = (code : ℕ) × (ordinal v ≡ some code)

-- The two matches of an enum undo one another.
pub record IsEnum {E : Type 0} (ordinal : E → Option ℕ) (of : ℕ → Option E) : Type 0 where
  pub back : (v : E) (code : ℕ) → ordinal v ≡ some code → (of code ≡ some v) × IsU32 code
  pub forth : (code : ℕ) (v : E) → of code ≡ some v → ordinal v ≡ some code

module _ ⦃order : ByteOrder⦄ {E : Type 0} (ordinal : E → Option ℕ) (of : ℕ → Option E) where
  unfoldable pub encode_enum : E → ProtocolResult Bytes
  encode_enum v = elim (ordinal v) [ some code ↦ i32.encode code | none ↦ err enum_unknown ]

  unfoldable pub variant_of : ℕ → Reader E
  unfolding i32_as_u64
  variant_of code = elim (of code) [
    | some v ↦ pure v
    | none ↦ fail (enum_invalid_ordinal (i32_as_u64 code))
  ]

  unfoldable pub codec_enum : Codec E
  unfolding encode_enum variant_of
  codec_enum = record {
    encode = encode_enum;
    decode = do
      code ← i32.decode
      variant_of code;
  }

module _ ⦃order : ByteOrder⦄ {E : Type 0} (ordinal : E → Option ℕ) (of : ℕ → Option E)
    (laws : IsEnum ordinal of) where
  pub variant-Carries :
      (v : E) (code : ℕ) → of code ≡ some v → Carries (variant_of ordinal of code) (ok []) v
  unfolding variant_of
  variant-Carries v code e = rw (e, variant_of) (Carries-pure v)

  pub codec_enum-RoundTrips : RoundTrips (codec_enum ordinal of) (IsKnown ordinal)
  unfolding codec_enum encode_enum
  codec_enum-RoundTrips v (code, e) =
      let (h, u) = laws.back v code e in
      rw (e, encode_enum) (Carries-end _ code (i32-RoundTrips code u) (variant-Carries v code h))

-- ===== src/Protocol/Codec/Primitives.antt =====
-- protocol/src/codec/primitives.rs and custom.rs. A number of w bits is kept as its bit pattern below
-- 2 ^ w: two's complement for the signed types, IEEE 754 for the floats.
use protanki_protocol_rs.Common.{ℕ, ◌+◌, ◌*◌, ◌^◌, ◌<◌, ◌≡◌, [], ◌∷◌, ◌++◌, length, All}
use protanki_protocol_rs.Common.Bytes.{Bytes, IsByte, IsU16, IsU32, IsU64}
use protanki_protocol_rs.Protocol.Error.{ok}
use protanki_protocol_rs.Protocol.Codec.Reader.{
  pure, read_exact, ◌>>=◌, ◌⧺◌, Codec, RoundTrips, Carries-pure, Carries-bind, Carries-map,
  Carries-read_exact,
}

-- The `byteorder` crate, which the sources only call: `write_uN::<BigEndian>` and
-- `read_uN::<BigEndian>` of N / 8 bytes. What is read back is what was written, and the last byte is the
-- lowest.
pub record ByteOrder : Type 0 where
  pub to_bytes : ℕ → ℕ → Bytes
  pub from_bytes : Bytes → ℕ
  pub length-to_bytes : (n v : ℕ) → length (to_bytes n v) ≡ n
  pub to_bytes-IsByte : (n v : ℕ) → All IsByte (to_bytes n v)
  pub from_bytes-to_bytes : (n v : ℕ) → v < 256 ^ n → from_bytes (to_bytes n v) ≡ v
  pub from_bytes-nil : from_bytes [] ≡ 0
  pub from_bytes-append :
      (bytes : Bytes) (b : ℕ) → from_bytes (bytes ++ (b ∷ [])) ≡ from_bytes bytes * 256 + b

-- nalgebra's `Vector3<f32>` is three numbers to this code.
pub record Vector3 : Type 0 where
  pub x : ℕ
  pub y : ℕ
  pub z : ℕ

abbrev pub IsVector3 : Vector3 → Type 0
IsVector3 v = IsU32 v.x × IsU32 v.y × IsU32 v.z

module _ ⦃order : ByteOrder⦄ where
  -- `impl_primitive!`, for a type of `n` bytes.
  unfoldable pub primitive : ℕ → Codec ℕ
  primitive n = record {
    encode = λ v. ok (order.to_bytes n v);
    decode = do
      bytes ← read_exact n
      pure (order.from_bytes bytes);
  }

  unfoldable pub i8 : Codec ℕ
  unfolding primitive
  i8 = primitive 1

  unfoldable pub u8 : Codec ℕ
  unfolding primitive
  u8 = primitive 1

  unfoldable pub i16 : Codec ℕ
  unfolding primitive
  i16 = primitive 2

  unfoldable pub u16 : Codec ℕ
  unfolding primitive
  u16 = primitive 2

  unfoldable pub i32 : Codec ℕ
  unfolding primitive
  i32 = primitive 4

  unfoldable pub u32 : Codec ℕ
  unfolding primitive
  u32 = primitive 4

  unfoldable pub i64 : Codec ℕ
  unfolding primitive
  i64 = primitive 8

  unfoldable pub u64 : Codec ℕ
  unfolding primitive
  u64 = primitive 8

  unfoldable pub f32 : Codec ℕ
  unfolding primitive
  f32 = primitive 4

  unfoldable pub f64 : Codec ℕ
  unfolding primitive
  f64 = primitive 8

  unfoldable pub vector3 : Codec Vector3
  unfolding f32
  vector3 = record {
    encode = λ v. f32.encode v.x ⧺ f32.encode v.y ⧺ f32.encode v.z ⧺ ok [];
    decode = do
      x ← f32.decode
      y ← f32.decode
      z ← f32.decode
      pure (record { x = x; y = y; z = z });
  }

module _ ⦃order : ByteOrder⦄ where
  primitive-RoundTrips : (n : ℕ) → RoundTrips (primitive n) (λ v. v < 256 ^ n)
  unfolding primitive
  primitive-RoundTrips n v h = rw (order.from_bytes-to_bytes n v h) at (
      Carries-map order.from_bytes (order.to_bytes n v) (
        Carries-read_exact n (order.to_bytes n v) (order.length-to_bytes n v)
          (order.to_bytes-IsByte n v)))

  pub i8-RoundTrips : RoundTrips i8 IsByte
  unfolding i8
  i8-RoundTrips = primitive-RoundTrips 1

  pub u8-RoundTrips : RoundTrips u8 IsByte
  unfolding u8
  u8-RoundTrips v h = primitive-RoundTrips 1 v h

  pub i16-RoundTrips : RoundTrips i16 IsU16
  unfolding i16
  i16-RoundTrips v h = primitive-RoundTrips 2 v h

  pub u16-RoundTrips : RoundTrips u16 IsU16
  unfolding u16
  u16-RoundTrips v h = primitive-RoundTrips 2 v h

  pub u32-RoundTrips : RoundTrips u32 IsU32
  unfolding u32
  u32-RoundTrips v h = primitive-RoundTrips 4 v h

  pub i64-RoundTrips : RoundTrips i64 IsU64
  unfolding i64
  i64-RoundTrips v h = primitive-RoundTrips 8 v h

  pub u64-RoundTrips : RoundTrips u64 IsU64
  unfolding u64
  u64-RoundTrips v h = primitive-RoundTrips 8 v h

  pub f64-RoundTrips : RoundTrips f64 IsU64
  unfolding f64
  f64-RoundTrips v h = primitive-RoundTrips 8 v h

  pub i32-RoundTrips : RoundTrips i32 IsU32
  unfolding i32
  i32-RoundTrips v h = primitive-RoundTrips 4 v h

  pub f32-RoundTrips : RoundTrips f32 IsU32
  unfolding f32
  f32-RoundTrips v h = primitive-RoundTrips 4 v h

  pub vector3-RoundTrips : RoundTrips vector3 IsVector3
  unfolding vector3
  vector3-RoundTrips v h = Carries-bind _ _ (f32-RoundTrips v.x h.0) (
      Carries-bind _ _ (f32-RoundTrips v.y h.1)
        (Carries-bind _ _ (f32-RoundTrips v.z h.2) (Carries-pure _)))

-- ===== src/Protocol/ResourcePath.antt =====
-- protocol/src/resources.rs: where a resource of an id and a version is found.
pub mod Injective
use protanki_protocol_rs.Common.{
  ℕ, ◌/◌, ◌%◌, ◌^◌, List, [], ◌∷◌, ◌++◌, length, take, drop, leb, if◌then◌else◌,
}
use protanki_protocol_rs.Common.Bytes.{Bytes}
use protanki_protocol_rs.Common.Decimal.{format, format_octal}
use protanki_protocol_rs.Protocol.Codec.Primitives.{ByteOrder}

pub data ResourceType : Type 0 where
  swf_library a3d movie_clip sound model3_ds image multiframe_image localized_image : ResourceType

unfoldable pub resource_type_number : ResourceType → ℕ
resource_type_number swf_library = 1
resource_type_number a3d = 2
resource_type_number movie_clip = 3
resource_type_number sound = 4
resource_type_number model3_ds = 9
resource_type_number image = 10
resource_type_number multiframe_image = 11
resource_type_number localized_image = 13

-- `u64::to_be_bytes`
unfoldable pub to_be_bytes : ℕ → Bytes
to_be_bytes n =
    (n / 256 ^ 7 % 256)
    ∷ (n / 256 ^ 6 % 256)
    ∷ (n / 256 ^ 5 % 256)
    ∷ (n / 256 ^ 4 % 256)
    ∷ (n / 256 ^ 3 % 256)
    ∷ (n / 256 ^ 2 % 256)
    ∷ (n / 256 % 256)
    ∷ (n % 256)
    ∷ []

module _ ⦃order : ByteOrder⦄ where
  -- `cursor.read_uN::<BigEndian>().unwrap_or(0)` with the bytes that follow.
  unfoldable pub read_or_zero : ℕ → Bytes → ℕ × Bytes
  read_or_zero n bytes =
      if leb n (length bytes) then (order.from_bytes (take n bytes), drop n bytes) else (0, bytes)

  unfoldable pub build_resource_path : ℕ → ℕ → Bytes
  unfolding to_be_bytes read_or_zero
  build_resource_path resource_id version =
      let (a, bytes) = read_or_zero 4 (to_be_bytes resource_id) in
      let (b, bytes') = read_or_zero 2 bytes in
      let (c, bytes'') = read_or_zero 1 bytes' in
      let (d, rest) = read_or_zero 1 bytes'' in
      format a
      ++ (b'/'
          ∷ (format b
              ++ (b'/' ∷ (format c ++ (b'/' ∷ (format d ++ (b'/' ∷ format_octal version)))))))

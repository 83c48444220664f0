-- ===== src/Protocol/Codec/Resources.antt =====
-- `ResourceReference` of protocol/src/codec/structs.rs.
use protanki_protocol_rs.Common.{ℕ}
use protanki_protocol_rs.Common.Bytes.{IsU32}
use protanki_protocol_rs.Protocol.Codec.Reader.{pure, ◌>>=◌, Codec, RoundTrips, Carries-map}
use protanki_protocol_rs.Protocol.Codec.Primitives.{ByteOrder, u32, u32-RoundTrips}

pub record ResourceReference : Type 0 where
  pub resource_id : ℕ

abbrev pub IsResourceReference : ResourceReference → Type 0
IsResourceReference v = IsU32 v.resource_id

unfoldable pub resource_reference : ⦃order : ByteOrder⦄ → Codec ResourceReference
resource_reference = record {
  encode = λ v. u32.encode v.resource_id;
  decode = do
    resource_id ← u32.decode
    pure (record { resource_id = resource_id });
}

pub resource_reference-RoundTrips :
    ⦃order : ByteOrder⦄ → RoundTrips resource_reference IsResourceReference
unfolding resource_reference
resource_reference-RoundTrips v h = Carries-map _ v.resource_id (u32-RoundTrips v.resource_id h)

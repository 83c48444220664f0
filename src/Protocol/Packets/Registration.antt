-- ===== src/Protocol/Packets/Registration.antt =====
-- What the registry of protocol/src/packets/registry.rs answers after registrations, and for ids that
-- nobody registered.
use protanki_protocol_rs.Common.{
  ℕ, ◌≡◌, refl, arith, true, false, none, [], ◌==◌, if◌then◌else◌, Option-cases, Bool-cases, ◌⊎◌,
  inl, inr,
}
use protanki_protocol_rs.Common.Bytes.{Bytes}
use protanki_protocol_rs.Common.Dict.{lookup, lookup-insert}
use protanki_protocol_rs.Protocol.Error.{ok, err, packet_unknown_id}
use protanki_protocol_rs.Protocol.Codec.Reader.{Reader, pure, fail, ◌>>=◌}
use protanki_protocol_rs.Protocol.Packets.{
  UnknownPacket, raw, PacketDirection, PacketRegistry, register_packet, decode, decode_registered,
  encode_unknown,
}

module _ {P : Type 0} where
  -- After a registration that did not panic, the id is decoded by its decoder, and every other id as
  -- before.
  pub decode-register_packet :
      (r s : PacketRegistry P) (id : ℕ) (decoder : Reader P)
      → register_packet r id decoder ≡ ok s
      → (j : ℕ) → decode s j ≡ (if id == j then decode_registered decoder else decode r j)
  unfolding register_packet decode
  decode-register_packet r s id decoder e j = elim (Option-cases (lookup id r.packets)) [
    | inl h ↦ ground (arith, h, lookup-insert id j decoder r.packets)
    | inr (d, h) ↦ ground (arith, h)
  ]

  -- An id that nobody registered is an error where unknown packets are not allowed; where they are
  -- allowed, it is a raw packet that takes all the bytes and is written as the same bytes under the same
  -- id.
  pub decode-unregistered :
      (r : PacketRegistry P) (id : ℕ) (bytes : Bytes)
      → lookup id r.packets ≡ none
      → ((r.decode_as_unknown ≡ false) × (decode r id bytes ≡ err (packet_unknown_id id)))
        ⊎ ((r.decode_as_unknown ≡ true)
            × (u : UnknownPacket) × (decode r id bytes ≡ ok (raw u, []))
            × (u.packet_id ≡ id)
            × (encode_unknown u ≡ ok bytes))
  unfolding decode encode_unknown fail ◌>>=◌ pure
  decode-unregistered r id bytes h = elim (Bool-cases r.decode_as_unknown) [
    | inl e ↦ inr (
      e,
      record { packet_id = id; direction = PacketDirection.unknown; payload = bytes },
      ground (arith, h, e),
      refl,
      refl,
    )
    | inr e ↦ inl (e, ground (arith, h, e))
  ]

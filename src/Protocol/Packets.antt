-- ===== src/Protocol/Packets.antt =====
-- protocol/src/packets/mod.rs, unknown.rs and registry.rs. The packet structs are generated when the
-- crate is built, so their type `P` and each one's decoder are parameters.
pub mod Registration
use protanki_protocol_rs.Common.{
  ℕ, ◌^◌, ◌-◌, Bool, true, false, Option, none, some, [], ◌++◌, if◌then◌else◌,
}
use protanki_protocol_rs.Common.Bytes.{Bytes}
use protanki_protocol_rs.Common.Dict.{Dict, lookup, insert}
use protanki_protocol_rs.Protocol.Error.{ProtocolResult, ok, err, panic, packet_unknown_id}
use protanki_protocol_rs.Protocol.Codec.Reader.{Reader, pure, fail, ◌>>=◌}

pub data PacketDirection : Type 0 where
  unknown s2c c2s : PacketDirection

pub record UnknownPacket : Type 0 where
  pub packet_id : ℕ
  pub direction : PacketDirection
  pub payload : Bytes

-- The capacity only reserves memory.
unfoldable pub new_with_capacity : PacketDirection → ℕ → ℕ → UnknownPacket
new_with_capacity direction id capacity = record {
  packet_id = id;
  direction = direction;
  payload = [];
}

unfoldable pub new_unknown : PacketDirection → ℕ → Bytes → UnknownPacket
new_unknown direction id payload = record {
  packet_id = id;
  direction = direction;
  payload = payload;
}

-- `(-1i32) as u32`.
unfoldable pub unknown_model_id : UnknownPacket → ℕ
unknown_model_id p = 2 ^ 32 - 1

unfoldable pub encode_unknown : UnknownPacket → ProtocolResult Bytes
encode_unknown p = ok p.payload

-- `read_to_end` appends all that is left.
unfoldable pub decode_unknown : UnknownPacket → Reader UnknownPacket
decode_unknown p bytes = ok (record p { payload = p.payload ++ bytes }, [])

-- `Box<dyn Packet>`: a generated struct, or an unknown packet.
pub data Packet (P : Type 0) : Type 0 where
  known : P → Packet P
  raw : UnknownPacket → Packet P

-- A registered packet is known by its decoder.
pub record PacketRegistry (P : Type 0) : Type 0 where
  pub packets : Dict (Reader P)
  pub decode_as_unknown : Bool

module _ {P : Type 0} where
  unfoldable pub new_registry : PacketRegistry P
  new_registry = record { packets = []; decode_as_unknown = false }

  unfoldable pub allow_unknown_packets : PacketRegistry P → PacketRegistry P
  allow_unknown_packets r = record r { decode_as_unknown = true }

  -- A second packet of the same id panics.
  unfoldable pub register_packet :
      PacketRegistry P → ℕ → Reader P → ProtocolResult (PacketRegistry P)
  unfolding lookup insert
  register_packet r id decoder = elim (lookup id r.packets) [
    | some old ↦ panic
    | none ↦ ok (record r { packets = insert id decoder r.packets })
  ]

  -- `RegisteredPacketImpl::decode`
  unfoldable pub decode_registered : Reader P → Reader (Packet P)
  decode_registered decoder = do p ← decoder; pure (known p)

  unfoldable pub decode_as_raw : ℕ → Reader (Packet P)
  unfolding new_with_capacity decode_unknown
  decode_as_raw id = do p ← decode_unknown (new_with_capacity unknown id 1024); pure (raw p)

  unfoldable pub decode : PacketRegistry P → ℕ → Reader (Packet P)
  unfolding decode_registered decode_as_raw lookup
  decode r id = elim (lookup id r.packets) [
    | some decoder ↦ decode_registered decoder
    | none ↦ if r.decode_as_unknown then decode_as_raw id else fail (packet_unknown_id id)
  ]

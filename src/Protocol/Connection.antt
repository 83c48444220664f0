-- ===== src/Protocol/Connection.antt =====
-- protocol/src/connection.rs: frames of a length, an id and an encrypted payload over a socket. The
-- packet structs are generated (see Protocol.Packets), so their type `P`, ids and encoders are
-- parameters. Wakers only say when to poll again, and are kept as whether one is stored.
pub mod Filters
pub mod Polling
pub mod Parsing
pub mod Link
pub mod Handshake
pub mod Input
pub mod Progress
use protanki_protocol_rs.Common.{
  ℕ, ◌+◌, ◌-◌, ◌*◌, ◌%◌, ◌^◌, Bool, true, false, ◌&&◌, List, [], ◌∷◌, ◌++◌, length, take, drop,
  replicate, ltb, leb, ◌==◌, if◌then◌else◌,
}
use protanki_protocol_rs.Common.Bytes.{Bytes}
use protanki_protocol_rs.Protocol.Error.{
  ProtocolError, ProtocolResult, ok, err, panic, ◌>>=◌, packet_too_large, packet_too_small,
  connection_closed, ConnectionClosedError, disconnected, read_error, write_error, IoError,
}
use protanki_protocol_rs.Protocol.Crypto.{CipherMode, Cipher, plain, encrypt, decrypt}
use protanki_protocol_rs.Protocol.Codec.Primitives.{ByteOrder, u32}
use protanki_protocol_rs.Protocol.Packets.{Packet, PacketRegistry, new_registry}
use protanki_protocol_rs.Protocol.Packets

pub data Poll (A : Type 0) : Type 0 where
  ready : A → Poll A
  pending : Poll A

pub record Connection (P : Type 0) : Type 0 where
  pub is_server : Bool
  pub crypt_context : Cipher
  pub is_disconnected : Bool
  pub recv_buffer : Bytes
  pub recv_buffer_index : ℕ
  pub send_buffer : Bytes
  pub send_waker : Bool
  pub packet_registry : PacketRegistry P

-- `&buffer[low..high]`
unfoldable pub slice : ℕ → ℕ → Bytes → ProtocolResult Bytes
slice low high buffer =
    if leb low high && leb high (length buffer)
    then ok (take (high - low) (drop low buffer))
    else panic

-- `Vec::resize` with zeros.
unfoldable pub resize : ℕ → Bytes → Bytes
resize n buffer = take n buffer ++ replicate (n - length buffer) 0

-- `buffer.copy_within(from.., 0)`: the end of the buffer keeps what it held.
unfoldable pub copy_within : ℕ → Bytes → Bytes
copy_within from buffer = drop from buffer ++ drop (length buffer - from) buffer

-- 64 MiB.
abbrev pub max_packet_length : ℕ
max_packet_length = 1024 * 1024 * 64

module _ ⦃order : ByteOrder⦄ where
  -- The frame in the clear: the length is written as 0 and overwritten at the end.
  unfoldable pub clear_frame : ℕ → Bytes → Bytes
  clear_frame id payload =
      let buffer = order.to_bytes 4 0 ++ (order.to_bytes 4 id ++ payload) in
      order.to_bytes 4 (length buffer % 2 ^ 32) ++ drop 4 buffer

  -- The length and the id at the start of the bytes received.
  unfoldable pub read_header : ℕ → Bytes → ProtocolResult (ℕ × ℕ)
  unfolding slice
  read_header index buffer = do
    received ← slice 0 index buffer
    (packet_length, rest) ← u32.decode received
    (packet_id, rest') ← u32.decode rest
    ok (packet_length, packet_id)

  module _ {P : Type 0} where
    unfoldable pub send_packet :
        (P → ℕ) → (P → ProtocolResult Bytes) → Connection P → P → ProtocolResult (Connection P)
    unfolding clear_frame encrypt slice
    send_packet packet_id encode c p = do
      payload ← encode p
      let buffer = clear_frame (packet_id p) payload
      body ← slice 8 (length buffer) buffer
      (cipher, wire) ← encrypt c.crypt_context body
      ok (record c {
        crypt_context = cipher;
        send_buffer = c.send_buffer ++ (take 8 buffer ++ wire);
        send_waker = false;
      })

    -- The packet is decoded from its payload, and the bytes behind it move to the front.
    unfoldable pub finish_packet :
        Connection P → ℕ → ℕ → Bytes → Connection P × Poll (ProtocolResult (Packet P))
    unfolding copy_within Packets.decode
    finish_packet c packet_length packet_id payload =
        elim (Packets.decode c.packet_registry packet_id payload) [
          | ok (packet, rest) ↦ (
            record c {
              recv_buffer = copy_within packet_length c.recv_buffer;
              recv_buffer_index = c.recv_buffer_index - packet_length;
            },
            ready (ok packet),
          )
          | err e ↦ (c, ready (err e))
          | panic ↦ (c, ready panic)
        ]

    -- The payload is decrypted in place.
    unfoldable pub take_packet :
        Connection P → ℕ → ℕ → Connection P × Poll (ProtocolResult (Packet P))
    unfolding finish_packet slice decrypt
    take_packet c packet_length packet_id =
        elim (slice 8 packet_length c.recv_buffer >>= decrypt c.crypt_context) [
          | ok (cipher, payload) ↦
              finish_packet
                (record c {
                  crypt_context = cipher;
                  recv_buffer =
                      take 8 c.recv_buffer ++ (payload ++ drop packet_length c.recv_buffer);
                })
                packet_length packet_id payload
          | err e ↦ (c, ready (err e))
          | panic ↦ (c, ready panic)
        ]

    -- Room for the whole packet.
    unfoldable pub grow : Connection P → ℕ → Connection P
    unfolding resize
    grow c n =
        if ltb (length c.recv_buffer) n
        then record c { recv_buffer = resize n c.recv_buffer }
        else c

    unfoldable pub parse_frame :
        Connection P → ℕ → ℕ → Connection P × Poll (ProtocolResult (Packet P))
    unfolding take_packet grow
    parse_frame c packet_length packet_id =
        if ltb max_packet_length packet_length
        then (c, ready (err (packet_too_large packet_length)))
        else if ltb packet_length 8
        then (c, ready (err (packet_too_small packet_length)))
        else if ltb c.recv_buffer_index packet_length
        then (grow c packet_length, pending)
        else take_packet c packet_length packet_id

    unfoldable pub try_parse_read_buffer :
        Connection P → Connection P × Poll (ProtocolResult (Packet P))
    unfolding parse_frame read_header
    try_parse_read_buffer c =
        if ltb c.recv_buffer_index 8
        then (c, pending)
        else elim (read_header c.recv_buffer_index c.recv_buffer) [
          | ok (packet_length, packet_id) ↦ parse_frame c packet_length packet_id
          | err e ↦ (c, ready (err e))
          | panic ↦ (c, ready panic)
        ]

-- ===== src/Protocol/Connection/Polling.antt =====
-- The polled half of protocol/src/connection.rs. What the socket answers, poll by poll, is a list of
-- events; where the list ends, the socket is pending.
use protanki_protocol_rs.Common.{
  ℕ, ◌+◌, ◌-◌, Bool, true, false, Option, none, some, List, [], ◌∷◌, ◌++◌, length, take, drop, ltb,
  ◌==◌, leb, if◌then◌else◌,
}
use protanki_protocol_rs.Common.Bytes.{Bytes}
use protanki_protocol_rs.Protocol.Error.{
  ProtocolResult, ok, err, panic, ◌>>=◌, connection_closed, disconnected, read_error, write_error,
  IoError, unexpected_packet, connection_aborted,
}
use protanki_protocol_rs.Protocol.Crypto.{CipherMode, plain, xor, new}
use protanki_protocol_rs.Protocol.Codec.Primitives.{ByteOrder}
use protanki_protocol_rs.Protocol.Packets.{
  Packet, known, raw, PacketRegistry, new_registry, allow_unknown_packets,
}
use protanki_protocol_rs.Protocol.Connection.{
  Connection, Poll, ready, pending, resize, copy_within, send_packet, try_parse_read_buffer,
}

pub data RecvEvent : Type 0 where
  received : Bytes → RecvEvent
  recv_failed : IoError → RecvEvent
  recv_pending : RecvEvent

pub data SendEvent : Type 0 where
  accepted : ℕ → SendEvent
  send_failed : IoError → SendEvent
  send_pending : SendEvent

module _ {P : Type 0} where
  -- `Connection::new`. `register_all_packets` of the generated modules is the argument.
  unfoldable pub new_connection : (Bool → PacketRegistry P → PacketRegistry P) → Bool → Connection P
  unfolding new_registry
  new_connection register_all is_server = record {
    is_server = is_server;
    crypt_context =
        plain (record { mode = if is_server then CipherMode.server else CipherMode.client });
    is_disconnected = false;
    recv_buffer = [];
    recv_buffer_index = 0;
    send_buffer = [];
    send_waker = false;
    packet_registry = register_all is_server new_registry;
  }

  unfoldable pub allow_unknown : Connection P → Connection P
  unfolding allow_unknown_packets
  allow_unknown c = record c { packet_registry = allow_unknown_packets c.packet_registry }

  unfoldable pub is_send_buffer_clear : Connection P → Bool
  is_send_buffer_clear c = length c.send_buffer == 0

  -- The socket writes behind the bytes received before.
  unfoldable pub fill : Connection P → Bytes → Connection P
  fill c bytes =
      let n = c.recv_buffer_index in
      record c {
        recv_buffer =
            take n c.recv_buffer
            ++ (take (length c.recv_buffer - n) bytes ++ drop (n + length bytes) c.recv_buffer);
        recv_buffer_index = n + length bytes;
      }

  -- At least 1024 bytes of room.
  unfoldable pub reserve : Connection P → Connection P
  unfolding resize
  reserve c =
      if ltb (length c.recv_buffer - c.recv_buffer_index) 1024
      then record c { recv_buffer = resize (length c.recv_buffer + 1024) c.recv_buffer }
      else c

  -- `poll_outgoing`, with the bytes that the socket accepted.
  unfoldable pub poll_outgoing :
      Connection P
      → List SendEvent
      → Bytes
      → Connection P × Poll (ProtocolResult (Packet P)) × Bytes
  unfolding is_send_buffer_clear copy_within
  poll_outgoing c [] wire = (record c { send_waker = true }, pending, wire)
  poll_outgoing c (e ∷ es) wire = elim (is_send_buffer_clear c) [
    | true ↦ (record c { send_waker = true }, pending, wire)
    | false ↦ elim e [
      | accepted n ↦ elim (leb n (length c.send_buffer)) [
        | true ↦
            poll_outgoing
              (record c {
                send_buffer = take (length c.send_buffer - n) (copy_within n c.send_buffer);
              })
              es (wire ++ take n c.send_buffer)
        | false ↦ (c, ready panic, wire)
      ]
      | send_failed x ↦
          (record c { send_waker = true }, ready (err (connection_closed (write_error x))), wire)
      | send_pending ↦ (record c { send_waker = true }, pending, wire)
    ]
  ]

  module _ ⦃order : ByteOrder⦄ where
    unfoldable pub receive_loop :
        Connection P → List RecvEvent → Connection P × Poll (ProtocolResult (Packet P))
    unfolding try_parse_read_buffer fill
    receive_loop c [] = try_parse_read_buffer c
    receive_loop c (e ∷ es) =
        let next = try_parse_read_buffer c in
        elim next.1 [
          | ready r ↦ (next.0, ready r)
          | pending ↦ elim e [
            | received [] ↦ (next.0, ready (err (connection_closed disconnected)))
            | received (b ∷ bs) ↦ receive_loop (fill next.0 (b ∷ bs)) es
            | recv_failed x ↦ (next.0, ready (err (connection_closed (read_error x))))
            | recv_pending ↦ (next.0, pending)
          ]
        ]

    unfoldable pub poll_incoming :
        Connection P → List RecvEvent → Connection P × Poll (ProtocolResult (Packet P))
    unfolding receive_loop reserve
    poll_incoming c es = receive_loop (reserve c) es

    -- `poll_io`, with the bytes that the socket accepted.
    unfoldable pub poll_io :
        Connection P
        → List SendEvent
        → List RecvEvent
        → Connection P × Poll (ProtocolResult (Packet P)) × Bytes
    unfolding poll_outgoing poll_incoming
    poll_io c ss rs =
        let out = poll_outgoing c ss [] in
        elim out.1 [
          | ready r ↦ (out.0, ready r, out.2)
          | pending ↦ let (c', r) = poll_incoming out.0 rs in (c', r, out.2)
        ]

    -- `Stream::poll_next`: the end of the stream is `none`.
    unfoldable pub poll_next :
        Connection P
        → List SendEvent
        → List RecvEvent
        → Connection P × Poll (Option (ProtocolResult (Packet P))) × Bytes
    unfolding poll_io
    poll_next c ss rs = elim c.is_disconnected [
      | true ↦ (c, ready none, [])
      | false ↦
          let (c', r, wire) = poll_io c ss rs in
          elim r [
            | ready (ok p) ↦ (c', ready (some (ok p)), wire)
            | ready (err e) ↦ (record c' { is_disconnected = true }, ready (some (err e)), wire)
            | ready panic ↦ (c', ready (some panic), wire)
            | pending ↦ (c', pending, wire)
          ]
    ]

    -- `init_encryption` of a server. The key comes from the random generator, and the packet from the
    -- generated struct's constructor.
    unfoldable pub init_server_encryption :
        (P → ℕ)
        → (P → ProtocolResult Bytes)
        → (Bytes → P)
        → Connection P
        → Bytes
        → ProtocolResult (Connection P)
    unfolding send_packet new
    init_server_encryption packet_id encode initialize c key = do
      c' ← send_packet packet_id encode c (initialize key)
      ok (record c' { crypt_context = xor (new CipherMode.server key) })

  -- `init_encryption` of a client, from what the stream's next item is. The argument reads the key of
  -- a packet of the expected type.
  unfoldable pub init_client_encryption :
      (P → Option Bytes)
      → Connection P
      → Option (ProtocolResult (Packet P))
      → ProtocolResult (Connection P)
  unfolding new
  init_client_encryption protection_data c none = err connection_aborted
  init_client_encryption protection_data c (some (err e)) = err e
  init_client_encryption protection_data c (some panic) = panic
  init_client_encryption protection_data c (some (ok (raw u))) = err unexpected_packet
  init_client_encryption protection_data c (some (ok (known p))) = elim (protection_data p) [
    | none ↦ err unexpected_packet
    | some key ↦ ok (record c { crypt_context = xor (new CipherMode.client key) })
  ]

-- ===== src/Protocol/Connection/Link.antt =====
-- Two connections of protocol/src/connection.rs, one sending to the other: packets sent, bytes that
-- the socket accepts and hands on in pieces of any size, room made for them, and parsing, in any order.
pub mod Sending
pub mod Delivery
pub mod Polls
use protanki_protocol_rs.Common.{ℕ, ◌+◌, ◌-◌, ◌≤◌, ◌<◌, ◌≡◌, List, [], ◌∷◌, ◌++◌, length, All}
use protanki_protocol_rs.Common.Bytes.{Bytes, IsByte, IsU32}
use protanki_protocol_rs.Protocol.Error.{ProtocolResult, ok}
use protanki_protocol_rs.Protocol.Crypto.{Cipher}
use protanki_protocol_rs.Protocol.Crypto.KeySync.{Paired}
use protanki_protocol_rs.Protocol.Codec.Primitives.{ByteOrder}
use protanki_protocol_rs.Protocol.Packets.{Packet, known, PacketRegistry}
use protanki_protocol_rs.Protocol.Packets
use protanki_protocol_rs.Protocol.Connection.{
  Connection, Poll, ready, pending, max_packet_length, send_packet, try_parse_read_buffer,
}
use protanki_protocol_rs.Protocol.Connection.Polling.{SendEvent, poll_outgoing, fill, reserve}
use protanki_protocol_rs.Protocol.Connection.Parsing.{HasRoom}

module _ ⦃order : ByteOrder⦄ {P : Type 0} (packet_id : P → ℕ)
    (encode : P → ProtocolResult Bytes) where
  -- A packet that the receiver's registry reads back from its encoding, and that is not too large.
  pub record IsSendable (registry : PacketRegistry P) (p : P) : Type 0 where
    pub payload : Bytes
    pub unread : Bytes
    pub encodes : encode p ≡ ok payload
    pub bytes : All IsByte payload
    pub decodes : Packets.decode registry (packet_id p) payload ≡ ok (known p, unread)
    pub id_u32 : IsU32 (packet_id p)
    pub small : 8 + length payload ≤ max_packet_length

  -- The two ends, the bytes between them, what was sent and what the receiver returned.
  pub record Link : Type 0 where
    pub sender : Connection P
    pub wire : Bytes
    pub receiver : Connection P
    pub sent : List P
    pub returned : List (ProtocolResult (Packet P))

  abbrev pub note_result :
      Poll (ProtocolResult (Packet P))
      → List (ProtocolResult (Packet P))
      → List (ProtocolResult (Packet P))
  note_result (ready r) returned = returned ++ (r ∷ [])
  note_result pending returned = returned

  pub data Step : Link → Link → Type 0 where
    send :
        (l : Link) (p : P) (sender : Connection P)
        → send_packet packet_id encode l.sender p ≡ ok sender
        → Step l (record l { sender = sender; sent = l.sent ++ (p ∷ []) })
    flush :
        (l : Link) (events : List SendEvent)
        → Step l (record l {
          sender = (poll_outgoing l.sender events []).0;
          wire = l.wire ++ (poll_outgoing l.sender events []).2;
        })
    -- The start of `poll_incoming`.
    make_room : (l : Link) → Step l (record l { receiver = reserve l.receiver })
    arrive :
        (l : Link) (chunk rest : Bytes)
        → l.wire ≡ chunk ++ rest
        → l.receiver.recv_buffer_index + length chunk ≤ length l.receiver.recv_buffer
        → Step l (record l { wire = rest; receiver = fill l.receiver chunk })
    parse :
        (l : Link)
        → Step l (record l {
          receiver = (try_parse_read_buffer l.receiver).0;
          returned = note_result (try_parse_read_buffer l.receiver).1 l.returned;
        })

  pub data Reach (l : Link) : Link → Type 0 where
    here : Reach l l
    next : {m n : Link} → Reach l m → Step m n → Reach l n

  -- Both ends at the start of an encrypted (or plain) conversation.
  pub record IsFresh (l : Link) : Type 0 where
    pub paired : Paired l.sender.crypt_context l.receiver.crypt_context
    pub no_output : l.sender.send_buffer ≡ []
    pub no_wire : l.wire ≡ []
    pub no_input : l.receiver.recv_buffer_index ≡ 0
    pub no_sent : l.sent ≡ []
    pub no_returned : l.returned ≡ []

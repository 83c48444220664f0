-- ===== src/Protocol/Connection/Link/Polls.antt =====
-- A whole `poll_incoming` of protocol/src/connection.rs as steps of a `Link`.
use mathlib.Core.Path.{subst}
use protanki_protocol_rs.Common.{
  ℕ, ◌+◌, ◌≤◌, ◌≡◌, sym, ap, ◌∙◌, List, [], ◌∷◌, ◌++◌, append_assoc, length,
}
use protanki_protocol_rs.Common.Bytes.{Bytes}
use protanki_protocol_rs.Protocol.Error.{ProtocolResult}
use protanki_protocol_rs.Protocol.Codec.Primitives.{ByteOrder}
use protanki_protocol_rs.Protocol.Packets.{Packet}
use protanki_protocol_rs.Protocol.Connection.{
  Connection, Poll, ready, pending, try_parse_read_buffer,
}
use protanki_protocol_rs.Protocol.Connection.Polling.{
  RecvEvent, received, recv_pending, fill, reserve, receive_loop, poll_incoming,
}
use protanki_protocol_rs.Protocol.Connection.Progress.{
  loop_ended, loop_answered, loop_idle, loop_fed,
}
use protanki_protocol_rs.Protocol.Connection.Link.{
  Link, make_room, arrive, parse, Reach, next, note_result,
}

module _ ⦃order : ByteOrder⦄ {P : Type 0} where
  -- What the socket answers in the loop, and the bytes that it hands over: every piece has a byte and
  -- fits the buffer, and there is no error and no end of the stream.
  pub data Feeds : Connection P → List RecvEvent → Bytes → Type 0 where
    answered :
        (c : Connection P) (e : RecvEvent) (es : List RecvEvent) (r : ProtocolResult (Packet P))
        → (try_parse_read_buffer c).1 ≡ ready r
        → Feeds c (e ∷ es) []
    ended : (c : Connection P) → Feeds c [] []
    idle :
        (c : Connection P) (es : List RecvEvent)
        → (try_parse_read_buffer c).1 ≡ pending
        → Feeds c (recv_pending ∷ es) []
    fed :
        (c : Connection P) (b : ℕ) (bs : Bytes) (es : List RecvEvent) (bytes : Bytes)
        → (try_parse_read_buffer c).1 ≡ pending
        → (try_parse_read_buffer c).0.recv_buffer_index + length (b ∷ bs)
          ≤ length (try_parse_read_buffer c).0.recv_buffer
        → Feeds (fill (try_parse_read_buffer c).0 (b ∷ bs)) es bytes
        → Feeds c (received (b ∷ bs) ∷ es) ((b ∷ bs) ++ bytes)

module _ ⦃order : ByteOrder⦄ {P : Type 0} (packet_id : P → ℕ)
    (encode : P → ProtocolResult Bytes) where
  -- The link after the receiver answered `q` with `rest` left on the wire.
  abbrev pub polled :
      Link packet_id encode
      → Bytes
      → Connection P × Poll (ProtocolResult (Packet P))
      → Link packet_id encode
  polled l rest q = record l {
    wire = rest;
    receiver = q.0;
    returned = note_result packet_id encode q.1 l.returned;
  }

  -- The link with these bytes on the wire and this receiver.
  abbrev at : Link packet_id encode → Bytes → Connection P → Link packet_id encode
  at l wire c = record l { wire = wire; receiver = c }

  receive_loop-Reach :
      {c : Connection P} {es : List RecvEvent} {bytes : Bytes} (k l : Link packet_id encode)
      (rest : Bytes)
      → Feeds c es bytes
      → Reach packet_id encode k (at l (bytes ++ rest) c)
      → Reach packet_id encode k (polled l rest (receive_loop c es))
  receive_loop-Reach k l rest (answered c e es r h) s =
      subst (λ q. Reach packet_id encode k (polled l rest q))
        (ap (λ x. ((try_parse_read_buffer c).0, x)) h ∙ sym (loop_answered c e es r h))
        (next s (parse (at l rest c)))
  receive_loop-Reach k l rest (ended c) s =
      subst (λ q. Reach packet_id encode k (polled l rest q)) (sym (loop_ended c))
        (next s (parse (at l rest c)))
  receive_loop-Reach k l rest (idle c es h) s =
      subst (λ q. Reach packet_id encode k (polled l rest q))
        (ap (λ x. ((try_parse_read_buffer c).0, x)) h ∙ sym (loop_idle c es h))
        (next s (parse (at l rest c)))
  receive_loop-Reach k l rest (fed c b bs es bytes h f more) s =
      let d = (try_parse_read_buffer c).0 in
      let parsed : Reach packet_id encode k (at l (((b ∷ bs) ++ bytes) ++ rest) d) =
        subst (λ x. Reach packet_id encode k (polled l (((b ∷ bs) ++ bytes) ++ rest) (d, x))) h
          (next s (parse (at l (((b ∷ bs) ++ bytes) ++ rest) c))) in
      subst (λ q. Reach packet_id encode k (polled l rest q)) (sym (loop_fed c b bs es h))
        (receive_loop-Reach k l rest more (
          next parsed (
            arrive (at l (((b ∷ bs) ++ bytes) ++ rest) d) (b ∷ bs) (bytes ++ rest)
              (append_assoc (b ∷ bs) bytes rest) f)))

  -- A poll of the receiver's socket that hands over these bytes, and what is then returned, goes on
  -- with a run.
  pub poll_incoming-Reach :
      {es : List RecvEvent} {bytes : Bytes} (k l : Link packet_id encode) (rest : Bytes)
      → l.wire ≡ bytes ++ rest
      → Feeds (reserve l.receiver) es bytes
      → Reach packet_id encode k l
      → Reach packet_id encode k (polled l rest (poll_incoming l.receiver es))
  unfolding poll_incoming
  poll_incoming-Reach {es} {bytes} k l rest e fs s =
      receive_loop-Reach k l rest fs (
        subst (λ w. Reach packet_id encode k (at l w (reserve l.receiver))) e
          (next s (make_room l)))

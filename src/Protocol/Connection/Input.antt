-- ===== src/Protocol/Connection/Input.antt =====
-- How much of the input the parser of protocol/src/connection.rs uses up.
use protanki_protocol_rs.Common.{
  ℕ, ◌+◌, ◌≤◌, ◌<◌, ◌≡◌, refl, arith, List, [], ◌∷◌, ◌++◌, ltb, leb, length, take, drop, Bool-cases,
  inl, inr,
}
use protanki_protocol_rs.Common.Bytes.{Bytes}
use protanki_protocol_rs.Protocol.Error
use protanki_protocol_rs.Protocol.Error.{
  ProtocolResult, ProtocolResult-cases, ok, err, panic, ProtocolError, connection_closed,
  disconnected, read_error, write_error,
}
use protanki_protocol_rs.Protocol.Codec.Primitives.{ByteOrder}
use protanki_protocol_rs.Protocol.Crypto.{decrypt}
use protanki_protocol_rs.Protocol.Packets
use protanki_protocol_rs.Protocol.Packets.{Packet}
use protanki_protocol_rs.Protocol.Connection.{
  Poll, ready, pending, Connection, slice, finish_packet, take_packet, grow, parse_frame,
  read_header, try_parse_read_buffer, max_packet_length,
}
use protanki_protocol_rs.Protocol.Connection.Polling.{
  RecvEvent, received, recv_failed, recv_pending, SendEvent, accepted, send_failed, send_pending,
  poll_outgoing, is_send_buffer_clear,
}

-- The bytes that the socket gives.
abbrev pub given : List RecvEvent → ℕ
given [] = 0
given (received bytes ∷ es) = length bytes + given es
given (recv_failed e ∷ es) = given es
given (recv_pending ∷ es) = given es

module _ {P : Type 0} where
  -- Within the input at hand, and below it if a packet was taken out.
  abbrev pub Uses : ℕ → Connection P → Poll (ProtocolResult (Packet P)) → Type 0
  Uses n c pending = c.recv_buffer_index ≤ n
  Uses n c (ready (ok p)) = c.recv_buffer_index < n
  Uses n c (ready (err e)) = c.recv_buffer_index ≤ n
  Uses n c (ready panic) = c.recv_buffer_index ≤ n

  abbrev pub UsesInput : ℕ → Connection P → Connection P × Poll (ProtocolResult (Packet P)) → Type 0
  UsesInput n c r = Uses n r.0 r.1 × (r.0.is_disconnected ≡ c.is_disconnected)

  pub Uses-more :
      (n m : ℕ) (c : Connection P) (r : Poll (ProtocolResult (Packet P)))
      → n ≤ m
      → Uses n c r
      → Uses m c r
  Uses-more n m c pending h u = omega arith
  Uses-more n m c (ready (ok p)) h u = omega arith
  Uses-more n m c (ready (err e)) h u = omega arith
  Uses-more n m c (ready panic) h u = omega arith

  -- The result of `poll_outgoing` is a failure of the socket, or pending.
  abbrev pub Fails : Poll (ProtocolResult (Packet P)) → Type 0
  Fails pending = Unit {0}
  Fails (ready (ok p)) = ⊥
  Fails (ready (err e)) = Unit {0}
  Fails (ready panic) = Unit {0}

  -- What the socket takes leaves the receiving side.
  pub poll_outgoing_same :
      (ss : List SendEvent) (c : Connection P) (wire : Bytes)
      → let r = poll_outgoing c ss wire in
        (r.0.recv_buffer_index ≡ c.recv_buffer_index)
        × (r.0.is_disconnected ≡ c.is_disconnected)
        × Fails r.1
  unfolding poll_outgoing
  poll_outgoing_same [] c wire = (refl, refl, tt)
  poll_outgoing_same (accepted n ∷ ss) c wire = elim (Bool-cases (is_send_buffer_clear c)) [
    | inl h ↦ rw (h, poll_outgoing) (refl, refl, tt)
    | inr h ↦ elim (Bool-cases (leb n (length c.send_buffer))) [
      | inl k ↦ rw (h, poll_outgoing, k) (poll_outgoing_same ss _ _)
      | inr k ↦ rw (h, poll_outgoing, k) (refl, refl, tt)
    ]
  ]
  poll_outgoing_same (send_failed x ∷ ss) c wire = elim (Bool-cases (is_send_buffer_clear c)) [
    | inl h ↦ rw (h, poll_outgoing) (refl, refl, tt)
    | inr h ↦ rw (h, poll_outgoing) (refl, refl, tt)
  ]
  poll_outgoing_same (send_pending ∷ ss) c wire = elim (Bool-cases (is_send_buffer_clear c)) [
    | inl h ↦ rw (h, poll_outgoing) (refl, refl, tt)
    | inr h ↦ rw (h, poll_outgoing) (refl, refl, tt)
  ]

module _ ⦃order : ByteOrder⦄ {P : Type 0} where
  pub finish_packet-UsesInput :
      (c : Connection P) (l id : ℕ) (payload : Bytes)
      → 0 < l
      → l ≤ c.recv_buffer_index
      → UsesInput c.recv_buffer_index c (finish_packet c l id payload)
  unfolding finish_packet
  finish_packet-UsesInput c l id payload h k =
      elim (ProtocolResult-cases (Packets.decode c.packet_registry id payload)) [
        | inl (r, e) ↦ rw (e, finish_packet) (omega arith, refl)
        | inr (inl (x, e)) ↦ rw (e, finish_packet) (omega arith, refl)
        | inr (inr e) ↦ rw (e, finish_packet) (omega arith, refl)
      ]

  pub take_packet-UsesInput :
      (c : Connection P) (l id : ℕ)
      → 0 < l
      → l ≤ c.recv_buffer_index
      → UsesInput c.recv_buffer_index c (take_packet c l id)
  unfolding take_packet
  take_packet-UsesInput c l id h k =
      elim (ProtocolResult-cases
        (Error.◌>>=◌ (slice 8 l c.recv_buffer) (decrypt c.crypt_context))) [
          | inl (r, e) ↦
              rw (e, take_packet)
                (finish_packet-UsesInput
                  (record c {
                    crypt_context = r.0;
                    recv_buffer = take 8 c.recv_buffer ++ (r.1 ++ drop l c.recv_buffer);
                  })
                  l id r.1 h k)
          | inr (inl (x, e)) ↦ rw (e, take_packet) (omega arith, refl)
          | inr (inr e) ↦ rw (e, take_packet) (omega arith, refl)
        ]

  pub grow-UsesInput :
      (c : Connection P) (l : ℕ) → UsesInput c.recv_buffer_index c (grow c l, pending)
  unfolding grow
  grow-UsesInput c l = ground arith

  pub parse_frame-UsesInput :
      (c : Connection P) (l id : ℕ) → UsesInput c.recv_buffer_index c (parse_frame c l id)
  unfolding parse_frame
  parse_frame-UsesInput c l id = elim (Bool-cases (ltb max_packet_length l)) [
    | inl a ↦ rw (a, parse_frame) (omega arith, refl)
    | inr a ↦ elim (Bool-cases (ltb l 8)) [
      | inl b ↦ rw (a, b, parse_frame) (omega arith, refl)
      | inr b ↦ elim (Bool-cases (ltb c.recv_buffer_index l)) [
        | inl d ↦ rw (a, b, d, parse_frame) (grow-UsesInput c l)
        | inr d ↦
            rw (a, b, d, parse_frame) (take_packet-UsesInput c l id (ground arith) (ground arith))
      ]
    ]
  ]

  pub try_parse-UsesInput :
      (c : Connection P) → UsesInput c.recv_buffer_index c (try_parse_read_buffer c)
  unfolding try_parse_read_buffer
  try_parse-UsesInput c = elim (Bool-cases (ltb c.recv_buffer_index 8)) [
    | inl a ↦ rw (a, try_parse_read_buffer) (omega arith, refl)
    | inr a ↦ elim (ProtocolResult-cases (read_header c.recv_buffer_index c.recv_buffer)) [
      | inl (r, e) ↦ rw (a, e, try_parse_read_buffer) (parse_frame-UsesInput c r.0 r.1)
      | inr (inl (x, e)) ↦ rw (a, e, try_parse_read_buffer) (omega arith, refl)
      | inr (inr e) ↦ rw (a, e, try_parse_read_buffer) (omega arith, refl)
    ]
  ]

-- ===== src/Protocol/Connection/Progress.antt =====
-- How much of the input a poll of the connection uses up.
use protanki_protocol_rs.Common.{
  ℕ, ◌+◌, ◌≤◌, ◌<◌, ◌≡◌, refl, ap, ◌∙◌, arith, Bool, true, false, Option, none, some, List, [], ◌∷◌,
  length, Bool-cases, inl, inr,
}
use protanki_protocol_rs.Common.Bytes.{Bytes}
use protanki_protocol_rs.Protocol.Error.{
  ProtocolResult, ok, err, panic, connection_closed, disconnected, read_error,
}
use protanki_protocol_rs.Protocol.Codec.Primitives.{ByteOrder}
use protanki_protocol_rs.Protocol.Packets.{Packet}
use protanki_protocol_rs.Protocol.Connection.{
  Poll, ready, pending, Connection, try_parse_read_buffer,
}
use protanki_protocol_rs.Protocol.Connection.Polling.{
  RecvEvent, received, recv_failed, recv_pending, SendEvent, fill, reserve, poll_outgoing,
  receive_loop, poll_incoming, poll_io, poll_next,
}
use protanki_protocol_rs.Protocol.Connection.Input.{
  given, UsesInput, Uses-more, Fails, poll_outgoing_same, try_parse-UsesInput,
}

module _ ⦃order : ByteOrder⦄ {P : Type 0} where
  -- The round of the loop after the buffer was parsed.
  receive_next :
      Connection P × Poll (ProtocolResult (Packet P))
      → RecvEvent
      → List RecvEvent
      → Connection P × Poll (ProtocolResult (Packet P))
  receive_next (c, ready r) e es = (c, ready r)
  receive_next (c, pending) (received []) es = (c, ready (err (connection_closed disconnected)))
  receive_next (c, pending) (received (b ∷ bs)) es = receive_loop (fill c (b ∷ bs)) es
  receive_next (c, pending) (recv_failed x) es = (c, ready (err (connection_closed (read_error x))))
  receive_next (c, pending) recv_pending es = (c, pending)

  receive_next_lem :
      (next : Connection P × Poll (ProtocolResult (Packet P))) (e : RecvEvent) (es : List RecvEvent)
      → (elim next.1 as (λ x. Connection P × Poll (ProtocolResult (Packet P))) [
        | ready r ↦ (next.0, ready r)
        | pending ↦ elim e [
          | received [] ↦ (next.0, ready (err (connection_closed disconnected)))
          | received (b ∷ bs) ↦ receive_loop (fill next.0 (b ∷ bs)) es
          | recv_failed x ↦ (next.0, ready (err (connection_closed (read_error x))))
          | recv_pending ↦ (next.0, pending)
        ]
      ])
        ≡ receive_next next e es
  unfolding receive_next
  receive_next_lem (c, ready r) e es = refl
  receive_next_lem (c, pending) (received []) es = refl
  receive_next_lem (c, pending) (received (b ∷ bs)) es = refl
  receive_next_lem (c, pending) (recv_failed x) es = refl
  receive_next_lem (c, pending) recv_pending es = refl

  receive_loop-next :
      (c : Connection P) (e : RecvEvent) (es : List RecvEvent)
      → receive_loop c (e ∷ es) ≡ receive_next (try_parse_read_buffer c) e es
  unfolding receive_loop
  receive_loop-next c e es = receive_next_lem (try_parse_read_buffer c) e es

  pub loop_ended : (c : Connection P) → receive_loop c [] ≡ try_parse_read_buffer c
  unfolding receive_loop
  loop_ended c = refl

  pub loop_answered :
      (c : Connection P) (e : RecvEvent) (es : List RecvEvent) (r : ProtocolResult (Packet P))
      → (try_parse_read_buffer c).1 ≡ ready r
      → receive_loop c (e ∷ es) ≡ ((try_parse_read_buffer c).0, ready r)
  unfolding receive_next
  loop_answered c e es r h =
      receive_loop-next c e es ∙ ap (λ x. receive_next ((try_parse_read_buffer c).0, x) e es) h

  pub loop_idle :
      (c : Connection P) (es : List RecvEvent)
      → (try_parse_read_buffer c).1 ≡ pending
      → receive_loop c (recv_pending ∷ es) ≡ ((try_parse_read_buffer c).0, pending)
  unfolding receive_next
  loop_idle c es h =
      receive_loop-next c recv_pending es
      ∙ ap (λ x. receive_next ((try_parse_read_buffer c).0, x) recv_pending es) h

  pub loop_fed :
      (c : Connection P) (b : ℕ) (bs : Bytes) (es : List RecvEvent)
      → (try_parse_read_buffer c).1 ≡ pending
      → receive_loop c (received (b ∷ bs) ∷ es)
        ≡ receive_loop (fill (try_parse_read_buffer c).0 (b ∷ bs)) es
  unfolding receive_next
  loop_fed c b bs es h =
      receive_loop-next c (received (b ∷ bs)) es
      ∙ ap (λ x. receive_next ((try_parse_read_buffer c).0, x) (received (b ∷ bs)) es) h

  receive_next-UsesInput :
      (next : Connection P × Poll (ProtocolResult (Packet P))) (e : RecvEvent) (es : List RecvEvent)
      (n : ℕ) (c : Connection P)
      → ((d : Connection P) → UsesInput (d.recv_buffer_index + given es) d (receive_loop d es))
      → UsesInput n c next
      → UsesInput (n + given (e ∷ es)) c (receive_next next e es)
  unfolding receive_next fill
  receive_next-UsesInput (d, ready r) e es n c ih (u, p) =
      (Uses-more n _ d (ready r) (omega arith) u, p)
  receive_next-UsesInput (d, pending) (received []) es n c ih (u, p) = (omega (arith, u), p)
  receive_next-UsesInput (d, pending) (received (b ∷ bs)) es n c ih (u, p) =
      let (v, q) = ih (fill d (b ∷ bs)) in
      let next = receive_loop (fill d (b ∷ bs)) es in
      (
        Uses-more (d.recv_buffer_index + length (b ∷ bs) + given es)
            (n + (length (b ∷ bs) + given es)) next.0 next.1 (omega (arith, u)) v,
        q ∙ p,
      )
  receive_next-UsesInput (d, pending) (recv_failed x) es n c ih (u, p) = (omega (arith, u), p)
  receive_next-UsesInput (d, pending) recv_pending es n c ih (u, p) = (omega (arith, u), p)

  receive_loop_end : (c : Connection P) → receive_loop c [] ≡ try_parse_read_buffer c
  unfolding receive_loop
  receive_loop_end c = refl

  receive_loop-UsesInput :
      (es : List RecvEvent) (c : Connection P)
      → UsesInput (c.recv_buffer_index + given es) c (receive_loop c es)
  receive_loop-UsesInput [] c =
      let (u, d) = try_parse-UsesInput c in
      rw (receive_loop_end c) (
        Uses-more c.recv_buffer_index (c.recv_buffer_index + 0) (try_parse_read_buffer c).0
            (try_parse_read_buffer c).1 (omega arith) u,
        d,
      )
  receive_loop-UsesInput (e ∷ es) c = rw (receive_loop-next c e es) (
      receive_next-UsesInput (try_parse_read_buffer c) e es c.recv_buffer_index c
        (receive_loop-UsesInput es) (try_parse-UsesInput c))

  reserve_same :
      (c : Connection P)
      → ((reserve c).recv_buffer_index ≡ c.recv_buffer_index)
        × ((reserve c).is_disconnected ≡ c.is_disconnected)
  unfolding reserve
  reserve_same c = ground arith

  poll_incoming-UsesInput :
      (es : List RecvEvent) (c : Connection P)
      → UsesInput (c.recv_buffer_index + given es) c (poll_incoming c es)
  unfolding poll_incoming
  poll_incoming-UsesInput es c =
      let (i, d) = reserve_same c in
      let (u, p) = receive_loop-UsesInput es (reserve c) in
      (
        Uses-more ((reserve c).recv_buffer_index + given es) (c.recv_buffer_index + given es)
            (receive_loop (reserve c) es).0 (receive_loop (reserve c) es).1 (omega (arith, i)) u,
        p ∙ d,
      )

  -- The rest of a poll after the outgoing bytes.
  poll_rest :
      Connection P × Poll (ProtocolResult (Packet P)) × Bytes
      → List RecvEvent
      → Connection P × Poll (ProtocolResult (Packet P)) × Bytes
  poll_rest (c, ready r, wire) es = (c, ready r, wire)
  poll_rest (c, pending, wire) es = let (c', r) = poll_incoming c es in (c', r, wire)

  poll_rest_lem :
      (out : Connection P × Poll (ProtocolResult (Packet P)) × Bytes) (es : List RecvEvent)
      → (elim out.1 as (λ x. Connection P × Poll (ProtocolResult (Packet P)) × Bytes) [
        | ready r ↦ (out.0, ready r, out.2)
        | pending ↦ let (c', r) = poll_incoming out.0 es in (c', r, out.2)
      ])
        ≡ poll_rest out es
  unfolding poll_rest
  poll_rest_lem (c, ready r, wire) es = refl
  poll_rest_lem (c, pending, wire) es = refl

  poll_io-rest :
      (c : Connection P) (ss : List SendEvent) (es : List RecvEvent)
      → poll_io c ss es ≡ poll_rest (poll_outgoing c ss []) es
  unfolding poll_io
  poll_io-rest c ss es = poll_rest_lem (poll_outgoing c ss []) es

  poll_rest-UsesInput :
      (out : Connection P × Poll (ProtocolResult (Packet P)) × Bytes) (es : List RecvEvent)
      (c : Connection P)
      → Fails out.1
      → out.0.recv_buffer_index ≡ c.recv_buffer_index
      → out.0.is_disconnected ≡ c.is_disconnected
      → let r = poll_rest out es in UsesInput (c.recv_buffer_index + given es) c (r.0, r.1)
  unfolding poll_rest
  poll_rest-UsesInput (d, ready (ok p), wire) es c f i k = elim f [ ]
  poll_rest-UsesInput (d, ready (err e), wire) es c f i k = (omega (arith, i), k)
  poll_rest-UsesInput (d, ready panic, wire) es c f i k = (omega (arith, i), k)
  poll_rest-UsesInput (d, pending, wire) es c f i k =
      let (u, q) = poll_incoming-UsesInput es d in
      (
        Uses-more (d.recv_buffer_index + given es) (c.recv_buffer_index + given es)
            (poll_incoming d es).0 (poll_incoming d es).1 (omega (arith, i)) u,
        q ∙ k,
      )

  -- What a poll of the stream leaves: a packet was taken out of the input at hand, or the stream has
  -- ended by an error.
  abbrev pub Ends : ℕ → Bool → Connection P → Poll (Option (ProtocolResult (Packet P))) → Type 0
  Ends n before c pending = Unit {0}
  Ends n before c (ready none) = before ≡ true
  Ends n before c (ready (some (ok p))) =
      (c.recv_buffer_index < n) × (c.is_disconnected ≡ false) × (before ≡ false)
  Ends n before c (ready (some (err e))) =
      (c.recv_buffer_index ≤ n) × (c.is_disconnected ≡ true) × (before ≡ false)
  Ends n before c (ready (some panic)) = Unit {0}

  stream_item-Ends :
      (n : ℕ) (c : Connection P) (r : Connection P × Poll (ProtocolResult (Packet P)) × Bytes)
      → c.is_disconnected ≡ false
      → UsesInput n c (r.0, r.1)
      → let item =
          (elim r.1 as (λ x. Connection P × Poll (Option (ProtocolResult (Packet P))) × Bytes) [
            | ready (ok p) ↦ (r.0, ready (some (ok p)), r.2)
            | ready (err e) ↦ (record r.0 { is_disconnected = true }, ready (some (err e)), r.2)
            | ready panic ↦ (r.0, ready (some panic), r.2)
            | pending ↦ (r.0, pending, r.2)
          ]) in
        Ends n false item.0 item.1
  stream_item-Ends n c (d, ready (ok p), wire) k (u, q) = (u, q ∙ k, refl)
  stream_item-Ends n c (d, ready (err e), wire) k (u, q) = (u, refl, refl)
  stream_item-Ends n c (d, ready panic, wire) k (u, q) = tt
  stream_item-Ends n c (d, pending, wire) k (u, q) = tt

  -- A stream that has ended returns nothing.
  pub poll_next_ended :
      (c : Connection P) (ss : List SendEvent) (es : List RecvEvent)
      → c.is_disconnected ≡ true
      → (poll_next c ss es).1 ≡ ready none
  unfolding poll_next
  poll_next_ended c ss es h = rw (h, poll_next) refl

  -- A packet that a poll of the stream returns uses up some of the bytes that were buffered or arrived,
  -- and the stream goes on. An error does not add to them, and ends the stream. A stream that has ended
  -- returns neither, and only such a one returns nothing.
  pub poll_next-Ends :
      (c : Connection P) (ss : List SendEvent) (es : List RecvEvent)
      → let r = poll_next c ss es in Ends (c.recv_buffer_index + given es) c.is_disconnected r.0 r.1
  unfolding poll_next
  poll_next-Ends c ss es = elim (Bool-cases c.is_disconnected) [
    | inl h ↦ rw (h, poll_next) refl
    | inr h ↦
        let (i, k, f) = poll_outgoing_same ss c [] in
        let u = poll_rest-UsesInput (poll_outgoing c ss []) es c f i k in
        rw (h, poll_next)
          (stream_item-Ends (c.recv_buffer_index + given es) c (poll_io c ss es) h
            (rw (poll_io-rest c ss es) u))
  ]

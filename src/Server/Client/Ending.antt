-- ===== src/Server/Client/Ending.antt =====
-- The loop over the connection in `Client::poll` of server/src/client.rs ends.
use protanki_protocol_rs.Common.{
  ℕ, zero, suc, ◌+◌, ◌≤◌, ◌<◌, ◌≡◌, refl, arith, true, false, Option, none, some, List, [], ◌∷◌,
  ◌++◌, if◌then◌else◌, Bool-cases, inl, inr, ◌&&◌,
}
use protanki_protocol_rs.Common.Bytes.{Bytes}
use protanki_protocol_rs.Protocol.Error.{ProtocolResult, ok, err, panic}
use protanki_protocol_rs.Protocol.Codec.Primitives.{ByteOrder}
use protanki_protocol_rs.Protocol.Packets.{Packet}
use protanki_protocol_rs.Protocol.Connection.{Connection, Poll, ready, pending}
use protanki_protocol_rs.Protocol.Connection.Polling.{poll_next, is_send_buffer_clear}
use protanki_protocol_rs.Protocol.Connection.Input.{given}
use protanki_protocol_rs.Protocol.Connection.Progress.{Ends, poll_next-Ends}
use protanki_protocol_rs.Server.Run.{Run, done, panicked, ◌>>=◌, Returns, Returns-bind, Returns-map}
use protanki_protocol_rs.Server.Client.{
  Client, ClientCall, Handled, do_connection_close, handle_protocol_error, send_packet, send_depth,
}
use protanki_protocol_rs.Server.Client.Later.{level, level-le, Later}
use protanki_protocol_rs.Server.Client.Closing.{
  AlertsEncode, handle_protocol_error-Later, visit_components-Later,
}
use protanki_protocol_rs.Server.Client.Polling.{
  SocketAnswers, answers_now, answers_later, PolledClient, handle_packet, poll_connection,
  finish_closing, is_closing,
}

-- The bytes that the socket gives in all polls.
abbrev pub given_all : SocketAnswers → ℕ
given_all [] = 0
given_all ((ss, es) ∷ answers) = given es + given_all answers

given_all_split :
    (answers : SocketAnswers)
    → given_all answers ≡ given (answers_now answers).1 + given_all (answers_later answers)
given_all_split [] = refl
given_all_split ((ss, es) ∷ answers) = refl

-- One round for the error that ends the stream.
abbrev pub rounds_left : {P : Type 0} → Connection P → ℕ
rounds_left c = c.recv_buffer_index + (if c.is_disconnected then 0 else 1)

module _ ⦃order : ByteOrder⦄ {P C T : Type 0} (packet_id : P → ℕ)
    (encode : P → ProtocolResult Bytes) (alert : Bytes → P)
    (on_packet : C → Client P C T → Packet P → Handled P C T)
    (poll_component : C → Client P C T → Handled P C T)
    (poll_task : T → Client P C T → Option T × List (ClientCall P C T))
    (alerts : AlertsEncode encode alert) where
  -- The client afterwards is not opened again.
  abbrev Forward : Client P C T → PolledClient P C T → Type 0
  Forward c r = level c.connection_state ≤ level r.client.connection_state

  finish_closing-Forward :
      (c : Client P C T) → level c.connection_state ≤ level (finish_closing c).connection_state
  unfolding finish_closing do_connection_close
  finish_closing-Forward c =
      elim (Bool-cases (is_closing c.connection_state && is_send_buffer_clear c.connection)) [
        | inl h ↦ rw (h, finish_closing) (level-le c.connection_state)
        | inr h ↦ rw (h, finish_closing) (omega arith)
      ]

  -- One round, by what the poll of the connection returns, with the rounds that follow.
  one_round :
      (n : ℕ) (c : Client P C T)
      (polled : Connection P × Poll (Option (ProtocolResult (Packet P))) × Bytes)
      (next : Client P C T → Bytes → Run (PolledClient P C T)) (wire : Bytes)
      → Ends n c.connection.is_disconnected polled.0 polled.1
      → ((d : Client P C T)
          → (c.connection.is_disconnected ≡ false)
          → rounds_left d.connection ≤ n
          → Returns (Forward d) (next d (wire ++ polled.2)))
      → let c' = record c { connection = polled.0 } in
        let wire' = wire ++ polled.2 in
        Returns (Forward c) (elim polled.1 as (λ x. Run (PolledClient P C T)) [
          | pending ↦ done (record { client = finish_closing c'; is_ready = false; wire = wire' })
          | ready none ↦
              done (record { client = do_connection_close c'; is_ready = true; wire = wire' })
          | ready (some (ok p)) ↦
              handle_packet packet_id encode alert on_packet poll_component poll_task c' p
              >>= λ c''. next c'' wire'
          | ready (some (err e)) ↦
              handle_protocol_error packet_id encode alert
                (send_packet packet_id encode alert send_depth)
                c'
                e
              >>= λ c''. next c'' wire'
          | ready (some panic) ↦ panicked
        ])
  unfolding handle_packet do_connection_close
  one_round n c (d, pending, w) next wire e k = finish_closing-Forward (record c { connection = d })
  one_round n c (d, ready none, w) next wire e k = level-le c.connection_state
  one_round n c (d, ready (some (ok p)), w) next wire (l, z, b) k =
      let c' = record c { connection = d } in
      Returns-bind (Later c') (Forward c) _ _
        (visit_components-Later packet_id encode alert alerts
          (λ component c''. on_packet component c'' p) c')
        λ f later.
          Returns-map (λ r g. omega (arith, later.forward, g)) (next f (wire ++ w))
            (k f b (rw (later.same_input.1, z) (omega (arith, l, later.same_input.0))))
  one_round n c (d, ready (some (err e)), w) next wire (l, z, b) k =
      let c' = record c { connection = d } in
      Returns-bind (Later c') (Forward c) _ _
        (handle_protocol_error-Later packet_id encode alert alerts c' e)
        λ f later.
          Returns-map (λ r g. omega (arith, later.forward, g)) (next f (wire ++ w))
            (k f b (rw (later.same_input.1, z) (omega (arith, l, later.same_input.0))))
  one_round n c (d, ready (some panic), w) next wire e k = tt

  -- Where the client's own alerts can be encoded, and whatever the components do, the loop over the
  -- connection ends: it takes at most one round for each byte that is buffered or arrives, one for the
  -- error that ends the stream, and one for the last poll. The state of the client's connection does not
  -- go back in it. A panic ends the loop too.
  pub poll_connection-ends :
      (fuel : ℕ) (c : Client P C T) (answers : SocketAnswers) (wire : Bytes)
      → rounds_left c.connection + given_all answers < fuel
      → Returns (Forward c) (
          poll_connection packet_id encode alert on_packet poll_component poll_task fuel c answers
            wire)
  unfolding poll_connection
  poll_connection-ends zero c answers wire h = elim h [ ]
  poll_connection-ends (suc fuel) c answers wire h =
      let now = answers_now answers in
      one_round (c.connection.recv_buffer_index + given now.1) c
        (poll_next c.connection now.0 now.1)
        (λ d w.
          poll_connection packet_id encode alert on_packet poll_component poll_task fuel d
            (answers_later answers) w)
        wire (poll_next-Ends c.connection now.0 now.1)
        λ d b l.
          poll_connection-ends fuel d (answers_later answers) _
            (ground (arith, h, b, l, given_all_split answers))

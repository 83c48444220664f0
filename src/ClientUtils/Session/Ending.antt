-- ===== src/ClientUtils/Session/Ending.antt =====
-- The loop over the connection in `Session::poll` of client-utils/src/session.rs.
use protanki_protocol_rs.Common.{
  ℕ, ◌+◌, ◌≡◌, refl, true, false, Option, none, some, ◌++◌, ◌⊎◌, inl, inr,
}
use protanki_protocol_rs.Common.Bytes.{Bytes}
use protanki_protocol_rs.Protocol.Error.{ProtocolResult, ok, err, panic}
use protanki_protocol_rs.Protocol.Codec.Primitives.{ByteOrder}
use protanki_protocol_rs.Protocol.Packets.{Packet}
use protanki_protocol_rs.Protocol.Connection.{Connection, Poll, ready, pending}
use protanki_protocol_rs.Protocol.Connection.Polling.{poll_next}
use protanki_protocol_rs.Protocol.Connection.Input.{given}
use protanki_protocol_rs.Protocol.Connection.Progress.{Ends, poll_next-Ends, poll_next_ended}
use protanki_protocol_rs.Server.Run.{Run, done, panicked, Returns, Returns-map}
use protanki_protocol_rs.Server.Client.Polling.{SocketAnswers, answers_now, answers_later}
use protanki_protocol_rs.ClientUtils.Handlers.{Visited, HandlerPoll}
use protanki_protocol_rs.ClientUtils.Session.{
  Session, Shared, PolledSession, handle_packet, handle_connection_error, poll_connection,
}

module _ {P H K : Type 0} where
  -- The session's future is ready only if the stream had ended before, or the session is marked.
  abbrev pub IsOver : Session P H K → PolledSession P H K → Type 0
  IsOver s r =
      (r.is_ready ≡ false) ⊎ (s.connection.is_disconnected ≡ true) ⊎ (r.session.disconnected ≡ true)

module _ {P H K E : Type 0} ⦃order : ByteOrder⦄
    (on_packet : Packet P → H → Shared P K → Visited H (Shared P K) (Option E))
    (poll_handler : H → Shared P K → Visited H (Shared P K) (HandlerPoll E)) where
  -- After the stream has ended one round is enough.
  ended_round :
      (s : Session P H K) (answers : SocketAnswers) (wire : Bytes)
      → s.connection.is_disconnected ≡ true
      → s.disconnected ≡ true
      → Returns
          (λ r. (r.is_ready ≡ true) × (r.session.disconnected ≡ true))
          (poll_connection on_packet poll_handler 1 s answers wire)
  unfolding poll_connection
  ended_round s answers wire h d =
      rw
        (
          poll_connection,
          poll_next_ended s.connection (answers_now answers).0 (answers_now answers).1 h,
        )
        (refl, d)

  first_round :
      (n : ℕ) (s : Session P H K)
      (polled : Connection P × Poll (Option (ProtocolResult (Packet P))) × Bytes)
      (next : Run (PolledSession P H K)) (wire : Bytes)
      → Ends n s.connection.is_disconnected polled.0 polled.1
      → (polled.0.is_disconnected ≡ true
          → Returns (λ r. (r.is_ready ≡ true) × (r.session.disconnected ≡ true)) next)
      → let s' = record s { connection = polled.0 } in
        let wire' = wire ++ polled.2 in
        Returns (IsOver s) (elim polled.1 as (λ x. Run (PolledSession P H K)) [
          | pending ↦ done (record { session = s'; is_ready = false; wire = wire' })
          | ready none ↦ done (record { session = s'; is_ready = true; wire = wire' })
          | ready (some (ok p)) ↦ done (record {
            session = handle_packet on_packet poll_handler s' p;
            is_ready = false;
            wire = wire';
          })
          | ready (some (err e)) ↦ next
          | ready (some panic) ↦ panicked
        ])
  first_round n s (d, pending, w) next wire e k = inl refl
  first_round n s (d, ready none, w) next wire e k = inr (inl e)
  first_round n s (d, ready (some (ok p)), w) next wire e k = inl refl
  first_round n s (d, ready (some (err x)), w) next wire e k =
      Returns-map (λ r q. inr (inr q.1)) next (k e.1)
  first_round n s (d, ready (some panic), w) next wire e k = tt

  -- The loop over the connection ends within two rounds, whatever the handlers and the socket do. The
  -- future of the session is ready then only if the stream had ended before, or the session is marked as
  -- disconnected.
  pub session_poll-Returns :
      (s : Session P H K) (answers : SocketAnswers) (wire : Bytes)
      → Returns (IsOver s) (poll_connection on_packet poll_handler 2 s answers wire)
  unfolding poll_connection handle_connection_error
  session_poll-Returns s answers wire =
      let now = answers_now answers in
      let polled = poll_next s.connection now.0 now.1 in
      let s' = handle_connection_error (record s { connection = polled.0 }) in
      first_round (s.connection.recv_buffer_index + given now.1) s polled
        (poll_connection on_packet poll_handler 1 s' (answers_later answers) (wire ++ polled.2))
        wire (poll_next-Ends s.connection now.0 now.1)
        λ h. ended_round s' (answers_later answers) (wire ++ polled.2) h refl

-- ===== src/ClientUtils/Session.antt =====
-- client-utils/src/session.rs: `Session`, a connection with its packet handlers. A handler changes the
-- connection and the components, which are a value of `K`; an error is a value of `E`. What the socket
-- answers is a list, one entry for each poll of the connection.
pub mod Ending
pub mod Builder
use protanki_protocol_rs.Common.{
  ℕ, zero, suc, Bool, true, false, Option, none, some, List, [], ◌∷◌, ◌++◌,
}
use protanki_protocol_rs.Common.Bytes.{Bytes}
use protanki_protocol_rs.Protocol.Error.{ProtocolResult, ok, err, panic}
use protanki_protocol_rs.Protocol.Codec.Primitives.{ByteOrder}
use protanki_protocol_rs.Protocol.Packets.{Packet}
use protanki_protocol_rs.Protocol.Connection.{Connection, ready, pending}
use protanki_protocol_rs.Protocol.Connection.Polling.{poll_next}
use protanki_protocol_rs.Server.Run.{Run, done, panicked, out_of_fuel}
use protanki_protocol_rs.Server.Client.Polling.{SocketAnswers, answers_now, answers_later}
use protanki_protocol_rs.ClientUtils.Handlers
use protanki_protocol_rs.ClientUtils.Handlers.{
  PacketHandlerRegistry, Visited, HandlerPoll, handle, register_handler, remove_handler,
}

pub record Session (P H K : Type 0) : Type 0 where
  pub language_code : Bytes
  pub connection : Connection P
  pub packet_handler : PacketHandlerRegistry H
  pub disconnected : Bool
  pub components : K

-- What a handler may change.
abbrev pub Shared : Type 0 → Type 0 → Type 0
Shared P K = Connection P × K

-- The session, whether its future is ready, and the bytes that the socket took.
pub record PolledSession (P H K : Type 0) : Type 0 where
  pub session : Session P H K
  pub is_ready : Bool
  pub wire : Bytes

module _ {P H K : Type 0} where
  unfoldable pub register_packet_handler : Session P H K → H → Session P H K × ℕ
  unfolding register_handler
  register_packet_handler s h =
      let (r, id) = register_handler false s.packet_handler h in
      (record s { packet_handler = r }, id)

  unfoldable pub remove_packet_handler : Session P H K → ℕ → Session P H K
  unfolding remove_handler
  remove_packet_handler s id = record s {
    packet_handler = remove_handler false s.packet_handler id;
  }

  -- Both error handlers only note that the session ends, and log.
  unfoldable pub handle_handler_error : Session P H K → Session P H K
  handle_handler_error s = record s { disconnected = true }

  unfoldable pub handle_connection_error : Session P H K → Session P H K
  handle_connection_error s = record s { disconnected = true }

  module _ {E : Type 0} where
    -- A function of the registry, called on the session.
    unfoldable pub with_handlers :
        (PacketHandlerRegistry H → Shared P K → PacketHandlerRegistry H × Shared P K × Option E)
        → Session P H K
        → Session P H K
    unfolding handle_handler_error
    with_handlers act s =
        let called = act s.packet_handler (s.connection, s.components) in
        let s' = record s {
          packet_handler = called.0;
          connection = called.1.0;
          components = called.1.1;
        } in
        elim called.2 [ some e ↦ handle_handler_error s' | none ↦ s' ]

    module _ (on_packet : Packet P → H → Shared P K → Visited H (Shared P K) (Option E))
        (poll_handler : H → Shared P K → Visited H (Shared P K) (HandlerPoll E)) where
      unfoldable pub handle_packet : Session P H K → Packet P → Session P H K
      unfolding with_handlers handle
      handle_packet s p = with_handlers (handle (on_packet p)) s

      -- The loop over the connection, with fuel. A packet ends it, with a wake-up for the next.
      unfoldable pub poll_connection :
          ⦃order : ByteOrder⦄
          → ℕ
          → Session P H K
          → SocketAnswers
          → Bytes
          → Run (PolledSession P H K)
      unfolding poll_next handle_packet handle_connection_error
      poll_connection zero s answers wire = out_of_fuel
      poll_connection (suc fuel) s answers wire =
          let now = answers_now answers in
          let polled = poll_next s.connection now.0 now.1 in
          let s' = record s { connection = polled.0 } in
          let wire' = wire ++ polled.2 in
          let next =
            poll_connection fuel (handle_connection_error s') (answers_later answers) wire' in
          elim polled.1 [
            | pending ↦ done (record { session = s'; is_ready = false; wire = wire' })
            | ready none ↦ done (record { session = s'; is_ready = true; wire = wire' })
            | ready (some (ok p)) ↦
                done (record { session = handle_packet s' p; is_ready = false; wire = wire' })
            | ready (some (err e)) ↦ next
            | ready (some panic) ↦ panicked
          ]

      unfoldable pub poll :
          ⦃order : ByteOrder⦄ → ℕ → Session P H K → SocketAnswers → Run (PolledSession P H K)
      unfolding with_handlers Handlers.poll poll_connection
      poll fuel s answers = elim s.disconnected [
        | true ↦ done (record { session = s; is_ready = true; wire = [] })
        | false ↦ poll_connection fuel (with_handlers (Handlers.poll poll_handler) s) answers []
      ]

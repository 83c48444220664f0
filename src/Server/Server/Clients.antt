-- ===== src/Server/Server/Clients.antt =====
-- The clients of server/src/server.rs.
use protanki_protocol_rs.Common.{
  ℕ, ◌<◌, ◌≡◌, refl, ap, arith, true, false, [], ◌∷◌, map, All, Bool-cases, ◌⊎◌, inl, inr,
}
use protanki_protocol_rs.Common.Bytes.{Bytes}
use protanki_protocol_rs.Common.Dict.{Dict}
use protanki_protocol_rs.Protocol.Error.{ProtocolResult}
use protanki_protocol_rs.Protocol.Codec.Primitives.{ByteOrder}
use protanki_protocol_rs.Server.Run.{Returns, Returns-bind}
use protanki_protocol_rs.Server.Client.{
  Client, ConnectionState, opened, closing, closed, disconnect, disconnect_flush,
}
use protanki_protocol_rs.Server.Client.Later.{level, Later}
use protanki_protocol_rs.Server.Client.Closing.{AlertsEncode, send_packet-Later}
use protanki_protocol_rs.Server.Server.{
  ClientLock, Server, Setup, halt_client, halt_clients, shutdown,
}

module _ {P C T : Type 0} where
  -- The client is closing or closed, or its lock is poisoned.
  abbrev pub IsHalted : ℕ × ClientLock P C T → Type 0
  IsHalted e = (e.1.is_poisoned ≡ true) ⊎ (0 < level e.1.client.connection_state)

  flush-level :
      (s : ConnectionState) (c : Client P C T)
      → c.connection_state ≡ s
      → 0 < level (disconnect_flush s c).connection_state
  unfolding disconnect_flush
  flush-level opened c e = omega arith
  flush-level (closing n) c e = omega arith
  flush-level closed c e = rw e (omega arith)

  disconnect-level : (c : Client P C T) → 0 < level (disconnect c true).connection_state
  unfolding disconnect
  disconnect-level c = flush-level c.connection_state c refl

  module _ ⦃order : ByteOrder⦄ (packet_id : P → ℕ) (encode : P → ProtocolResult Bytes)
      (setup : Setup P C T) (alerts : AlertsEncode encode setup.alert) where
    halt_client-level :
        (c : Client P C T)
        → Returns (λ d. 0 < level d.connection_state) (halt_client packet_id encode setup c)
    unfolding halt_client
    halt_client-level c =
        Returns-bind (Later c) _ _ _ (send_packet-Later packet_id encode setup.alert alerts c _)
          λ c' _.
            Returns-bind (Later c') _ _ _
              (send_packet-Later packet_id encode setup.alert alerts c' setup.halt)
              λ c'' _. disconnect-level c''

    -- The same clients, all of them halted.
    AreHalted : Dict (ClientLock P C T) → Dict (ClientLock P C T) → Type 0
    AreHalted clients clients' =
        (map (λ e. e.0) clients' ≡ map (λ e. e.0) clients) × All IsHalted clients'

    halt_clients-AreHalted :
        (clients : Dict (ClientLock P C T))
        → Returns (AreHalted clients) (halt_clients packet_id encode setup clients)
    unfolding halt_clients AreHalted
    halt_clients-AreHalted [] = (refl, tt)
    halt_clients-AreHalted ((id, lock) ∷ clients) = elim (Bool-cases lock.is_poisoned) [
      | inl h ↦
          rw (h, halt_clients)
            (Returns-bind (AreHalted clients) _ _ _ (halt_clients-AreHalted clients)
              λ clients' a. (ap (◌∷◌ id) a.0, (inl refl, a.1)))
      | inr h ↦
          rw (h, halt_clients)
            (Returns-bind (λ d. 0 < level d.connection_state) _ _ _ (halt_client-level lock.client)
              λ c l.
                Returns-bind (AreHalted clients) _ _ _ (halt_clients-AreHalted clients)
                  λ clients' a. (ap (◌∷◌ id) a.0, (inr l, a.1)))
    ]

    -- Where the server's alerts can be encoded, the first shutdown marks the server as shut down, answers
    -- that it did, keeps all clients, and leaves each of them closing or closed, unless its lock is
    -- poisoned or the code panics.
    pub shutdown-AreHalted :
        (s : Server P C T)
        → s.is_shutdown ≡ false
        → Returns
            (λ r.
              (r.0.is_shutdown ≡ true)
              × (r.1 ≡ true)
              × (map (λ e. e.0) r.0.clients ≡ map (λ e. e.0) s.clients)
              × All IsHalted r.0.clients)
            (shutdown packet_id encode setup s)
    unfolding shutdown AreHalted
    shutdown-AreHalted s h =
        rw (h, shutdown)
          (Returns-bind (AreHalted s.clients) _ _ _ (halt_clients-AreHalted s.clients)
            λ clients a. (refl, refl, a.0, a.1))

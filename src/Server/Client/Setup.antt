-- ===== src/Server/Client/Setup.antt =====
-- server/src/client.rs: `Client::new`, the setup of a client. The wait for its first packet, which is
-- bounded by 15 seconds, is a parameter: a function from the connection to what it is then and to how
-- the wait ended. So are the language of a packet of the expected type, and the ping component.
use protanki_protocol_rs.Common.{ℕ, Bool, true, false, Option, none, some, []}
use protanki_protocol_rs.Common.Bytes.{Bytes}
use protanki_protocol_rs.Protocol.Error.{ProtocolError, ProtocolResult, ok, err, panic}
use protanki_protocol_rs.Protocol.Codec.Primitives.{ByteOrder}
use protanki_protocol_rs.Protocol.Packets.{Packet, known, raw, PacketRegistry}
use protanki_protocol_rs.Protocol.Connection.{Connection}
use protanki_protocol_rs.Protocol.Connection.Polling.{new_connection, init_server_encryption}
use protanki_protocol_rs.Server.Tasks.{new_tasks}
use protanki_protocol_rs.Server.Client.{Client, opened, unauthenticated, store_component}

-- How the wait for the first item of the stream ended.
pub data FirstItem (P : Type 0) : Type 0 where
  arrived : ProtocolResult (Packet P) → FirstItem P
  ended timed_out : FirstItem P

pub data SetupError : Type 0 where
  encryption_error connection_error : ProtocolError → SetupError
  closed_in_setup setup_timed_out not_initialized : SetupError

pub data SetupResult (A : Type 0) : Type 0 where
  ready : A → SetupResult A
  failed : SetupError → SetupResult A
  panicked : SetupResult A

module _ {P C T : Type 0} where
  unfoldable pub set_up : ℕ → C → Connection P → Bytes → Client P C T
  unfolding store_component new_tasks
  set_up ping_key ping connection language =
      store_component
        (record {
          client_id = 0;
          server_events = false;
          issued = [];
          connection = connection;
          connection_state = opened;
          components = [];
          objects = [];
          next_object = 0;
          borrowed = none;
          language = language;
          tasks = new_tasks;
          waker = false;
          authentication_state = unauthenticated;
        })
        ping_key ping

  unfoldable pub on_first_item :
      (P → Option Bytes) → ℕ → C → Connection P → FirstItem P → SetupResult (Client P C T)
  unfolding set_up
  on_first_item lang ping_key ping c (arrived (ok (known p))) = elim (lang p) [
    | none ↦ failed not_initialized
    | some language ↦ ready (set_up ping_key ping c language)
  ]
  on_first_item lang ping_key ping c (arrived (ok (raw u))) = failed not_initialized
  on_first_item lang ping_key ping c (arrived (err e)) = failed (connection_error e)
  on_first_item lang ping_key ping c (arrived panic) = panicked
  on_first_item lang ping_key ping c ended = failed closed_in_setup
  on_first_item lang ping_key ping c timed_out = failed setup_timed_out

  module _ ⦃order : ByteOrder⦄ (packet_id : P → ℕ) (encode : P → ProtocolResult Bytes)
      (register_all : Bool → PacketRegistry P → PacketRegistry P) (initialize : Bytes → P)
      (next : Connection P → Connection P × FirstItem P) (lang : P → Option Bytes) where
    unfoldable pub new_client : Bytes → ℕ → C → SetupResult (Client P C T)
    unfolding new_connection init_server_encryption on_first_item
    new_client key ping_key ping =
        elim (init_server_encryption packet_id encode initialize (new_connection register_all true)
          key) [
            | err e ↦ failed (encryption_error e)
            | panic ↦ panicked
            | ok c ↦ let waited = next c in on_first_item lang ping_key ping waited.0 waited.1
          ]

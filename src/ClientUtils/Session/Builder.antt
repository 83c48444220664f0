-- ===== src/ClientUtils/Session/Builder.antt =====
-- client-utils/src/session.rs: `SessionBuilder`. A filter for the log that the caller brings is a value of
-- `F`. The wait for the first item of the stream is a parameter, as is the packet that tells the language.
use protanki_protocol_rs.Common.{ℕ, Bool, true, false, Option, if◌then◌else◌}
use protanki_protocol_rs.Common.Bytes.{Bytes}
use protanki_protocol_rs.Common.Text.{codes}
use protanki_protocol_rs.Protocol.Error.{ProtocolResult, ok, ◌>>=◌}
use protanki_protocol_rs.Protocol.Codec.Primitives.{ByteOrder}
use protanki_protocol_rs.Protocol.Packets.{Packet, PacketRegistry}
use protanki_protocol_rs.Protocol.Connection.{Connection, send_packet}
use protanki_protocol_rs.Protocol.Connection.Filters.{
  SimplePacketDebugFilter, logging_enabled, logging_disabled,
}
use protanki_protocol_rs.Protocol.Connection.Polling.{
  new_connection, allow_unknown, init_client_encryption,
}
use protanki_protocol_rs.ClientUtils.Handlers.{new_handlers}
use protanki_protocol_rs.ClientUtils.Session.{Session}

pub data LogFilter (F : Type 0) : Type 0 where
  simple_filter : SimplePacketDebugFilter → LogFilter F
  given_filter : F → LogFilter F

pub record SessionBuilder (F : Type 0) : Type 0 where
  pub language_code : Bytes
  pub log_filter : LogFilter F
  pub allow_unknown_packets : Bool

module _ {F : Type 0} where
  unfoldable pub new_builder : SessionBuilder F
  unfolding logging_disabled
  new_builder = record {
    language_code = codes "en";
    log_filter = simple_filter logging_disabled;
    allow_unknown_packets = false;
  }

  unfoldable pub set_lang_code : SessionBuilder F → Bytes → SessionBuilder F
  set_lang_code b code = record b { language_code = code }

  unfoldable pub set_log_filter : SessionBuilder F → F → SessionBuilder F
  set_log_filter b filter = record b { log_filter = given_filter filter }

  unfoldable pub set_log_packets : SessionBuilder F → Bool → SessionBuilder F
  unfolding logging_enabled logging_disabled
  set_log_packets b enabled = record b {
    log_filter = simple_filter (if enabled then logging_enabled else logging_disabled);
  }

  unfoldable pub allow_unknown_of_builder : SessionBuilder F → SessionBuilder F
  allow_unknown_of_builder b = record b { allow_unknown_packets = true }

  module _ {P H K : Type 0} ⦃order : ByteOrder⦄ (packet_id : P → ℕ)
      (encode : P → ProtocolResult Bytes)
      (register_all : Bool → PacketRegistry P → PacketRegistry P)
      (protection_data : P → Option Bytes) (initialized : Bytes → P)
      (next : Connection P → Connection P × Option (ProtocolResult (Packet P))) where
    -- The session starts without components: `empty`. The filter only decides what is logged.
    unfoldable pub connect_with_socket : SessionBuilder F → K → ProtocolResult (Session P H K)
    unfolding new_connection allow_unknown init_client_encryption send_packet new_handlers
    connect_with_socket b empty =
        let created = new_connection register_all false in
        let opened = if b.allow_unknown_packets then allow_unknown created else created in
        let waited = next opened in
        do
          c ← init_client_encryption protection_data waited.0 waited.1
          c' ← send_packet packet_id encode c (initialized b.language_code)
          ok (record {
            language_code = b.language_code;
            connection = c';
            packet_handler = new_handlers;
            disconnected = false;
            components = empty;
          })

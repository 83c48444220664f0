-- ===== src/Protocol/Connection/Handshake.antt =====
-- `init_encryption` of protocol/src/connection.rs on both sides.
use protanki_protocol_rs.Common.{ℕ, ◌≡◌, sym, arith, Option, some, All}
use protanki_protocol_rs.Common.Bytes.{Bytes, IsByte}
use mathlib.Core.Path.{subst₂}
use protanki_protocol_rs.Protocol.Error.{ProtocolResult, ok}
use protanki_protocol_rs.Protocol.Crypto.{CipherMode, xor, new}
use protanki_protocol_rs.Protocol.Crypto.KeySync.{Paired, new-Paired}
use protanki_protocol_rs.Protocol.Codec.Primitives.{ByteOrder}
use protanki_protocol_rs.Protocol.Packets.{known}
use protanki_protocol_rs.Protocol.Connection.{Connection}
use protanki_protocol_rs.Protocol.Connection.Polling.{
  init_server_encryption, init_client_encryption,
}

module _ ⦃order : ByteOrder⦄ {P : Type 0} (packet_id : P → ℕ) (encode : P → ProtocolResult Bytes)
    (initialize : Bytes → P) (protection_data : P → Option Bytes) where
  server_cipher :
      (c c' : Connection P) (key : Bytes)
      → init_server_encryption packet_id encode initialize c key ≡ ok c'
      → c'.crypt_context ≡ xor (new CipherMode.server key)
  unfolding init_server_encryption
  server_cipher c c' key e = ground (arith, e)

  -- When the server's call succeeds with a key of bytes, and the client's with a packet that holds this
  -- key, each side can decrypt what the other encrypts.
  pub init_encryption-Paired :
      (server client server' client' : Connection P) (key : Bytes) (packet : P)
      → All IsByte key
      → init_server_encryption packet_id encode initialize server key ≡ ok server'
      → protection_data packet ≡ some key
      → init_client_encryption protection_data client (some (ok (known packet))) ≡ ok client'
      → Paired server'.crypt_context client'.crypt_context
        × Paired client'.crypt_context server'.crypt_context
  unfolding init_client_encryption
  init_encryption-Paired s c s' c' key p h es ek ec =
      let se = server_cipher s s' key es in
      let ce : c'.crypt_context ≡ xor (new CipherMode.client key) = ground (arith, ek, ec) in
      subst₂ (λ x y. Paired x y × Paired y x) (sym se) (sym ce) (new-Paired key h)

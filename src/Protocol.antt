-- ===== src/Protocol.antt =====
-- The crate protocol/: errors, ciphers, codecs, packets and the connection.
pub mod Error
pub mod Crypto
pub mod Codec
pub mod Packets
pub mod Connection
pub mod ResourcePath

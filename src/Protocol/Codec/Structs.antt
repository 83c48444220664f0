-- ===== src/Protocol/Codec/Structs.antt =====
-- The structs of protocol/src/codec/structs.rs.
pub mod Users
pub mod Account
pub mod Lobby
pub mod Tanks
pub mod Battles
pub mod Flags
pub mod Points
pub mod RoundTrips

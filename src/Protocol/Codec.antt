-- ===== src/Protocol/Codec.antt =====
-- protocol/src/codec: how values become bytes. `Reader` has the trait and its laws; the others
-- follow the files of the source.
pub mod Reader
pub mod Primitives
pub mod Basics
pub mod Length
pub mod Enums
pub mod Resources
pub mod Structs

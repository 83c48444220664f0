-- ===== src/Server.antt =====
-- The crate server/: the server, its clients with their tasks, chat and pings, ranks, captchas and resources.
pub mod Rank
pub mod Captcha
pub mod Loading
pub mod Chat
pub mod Tasks
pub mod Run
pub mod Client
pub mod Ping
pub mod Server
pub mod Resources
pub mod Users
pub mod Authentication

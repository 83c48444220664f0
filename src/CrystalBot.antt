-- ===== src/CrystalBot.antt =====
-- The program applications/crystal-bot/: clients that shoot at tanks of a battle.
pub mod Tanks
pub mod Spawner
pub mod Actions
pub mod Shooter
pub mod UserList

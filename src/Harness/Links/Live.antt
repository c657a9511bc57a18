-- ===== src/Harness/Links/Live.antt =====
-- config.go: between which servers a request can pass.
pub mod Wired
pub mod Connect
pub mod Disconnect
pub mod Renamed
pub mod Start
pub mod Between
pub mod Reached

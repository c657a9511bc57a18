-- ===== src/Shards.antt =====
-- The clerks of 6.5840/src/shardctrler and 6.5840/src/shardkv.
pub mod Rounds
pub mod Ctrler
pub mod Kv
pub mod Answers
pub mod Served
pub mod Owner
pub mod Settled
pub mod Returns
pub mod Leader
mod Tests

-- ===== src/Harness.antt =====
-- 6.5840/src/raft/config.go: the harness of the Raft tests, as far as it decides whether a test
-- passes: who leads, what has been committed, and which ends of the network are on.
pub mod Leaders
pub mod Commits
pub mod Links

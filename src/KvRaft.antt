-- ===== src/KvRaft.antt =====
-- 6.5840/src/kvraft: the harness of its tests, config.go. The handlers of the server and the clerk are
-- empty in the source.
pub mod Config

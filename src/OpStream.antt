-- ===== src/OpStream.antt =====
-- opstream: the hash-chained stream of applied ops.
pub mod Chain
pub mod Sink
pub mod Replay
pub mod Linked
pub mod Chained
pub mod Append
pub mod Stale
pub mod Resume
pub mod Persist
pub mod Tests

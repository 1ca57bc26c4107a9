-- ===== src/Ops/Laws.antt =====
-- What the theorems about the apply engine rest on, and the theorems, by op.
pub mod Find
pub mod Guard
pub mod Batch
pub mod Runs
pub mod Nested
pub mod Unique
pub mod Parent
pub mod Relist
pub mod Insert
pub mod Remove
pub mod Move
pub mod Multiset
pub mod Reorder
pub mod Rewrite
pub mod Restyle
pub mod Style
pub mod Gap
pub mod Panic
pub mod Overflow

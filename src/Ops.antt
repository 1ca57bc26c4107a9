-- ===== src/Ops.antt =====
-- ops: the tree-op apply engine.
pub mod Traverse
pub mod Prop
pub mod Apply
pub mod Limits
pub mod Placement
pub mod Laws
pub mod Tests

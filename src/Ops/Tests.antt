-- ===== src/Ops/Tests.antt =====
-- Runs of the apply engine on small trees, and the theorems at them.
pub mod Trees
pub mod Structure
pub mod Edits
pub mod Engine
pub mod Slots

-- ===== src/Ops/Prop.antt =====
-- ops/prop.go: the UpdateProp surface.
pub mod Tables
pub mod Coerce
pub mod Store
pub mod Path
pub mod Nested

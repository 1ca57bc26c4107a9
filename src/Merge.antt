-- ===== src/Merge.antt =====
-- merge/merge.go: the facet-wise three-way merge of two edits of a tree.
pub mod Order
pub mod Refusal
pub mod Facets
pub mod Places
pub mod Engine
pub mod Agreement
pub mod Moves
pub mod Recorded
pub mod Primacy
pub mod Contested
pub mod Lost
pub mod Fuel
pub mod Mirror
pub mod Envelope
pub mod Absent
mod Tests

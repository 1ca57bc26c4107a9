-- ===== src/Idl.antt =====
-- wire/idl: the generated vocabulary tables and their lookups.
pub mod Types
pub mod Kinds
pub mod Records
pub mod Lookup
pub mod Facts

-- ===== src/Wire.antt =====
-- wire/*.go: the decoded model.
pub mod Value
pub mod Size
pub mod Core
pub mod Encode

-- ===== src/Wire.antt =====
-- Bytes on the wire and in columns.
pub mod Frame

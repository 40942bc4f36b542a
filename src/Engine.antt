-- ===== src/Engine.antt =====
-- The connection engine of src/engine.
pub mod Conn

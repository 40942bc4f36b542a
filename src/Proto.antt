-- ===== src/Proto.antt =====
-- The wire codecs of src/proto.
pub mod Varint
pub mod Frame
pub mod Preamble
pub mod Capsule
pub mod Settings
pub mod SfString
pub mod Qpack
pub mod ErrMap
pub mod Connect

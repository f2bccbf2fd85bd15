-- ===== src/Codec.antt =====
-- luce/codec: the wire formats.
pub mod NetInt
pub mod TinyPb
pub mod TypeHelper
pub mod Serializer
pub mod Overloads

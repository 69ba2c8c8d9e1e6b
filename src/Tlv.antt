-- ===== src/Tlv.antt =====
-- src/tlv.rs: values, their binary form, and the way back.
pub mod Value
pub mod Map
pub mod Varint
pub mod Encode
pub mod Decode

-- ===== src/Std.antt =====
-- What the sources use of Rust's standard library: integers as bytes, UTF-8, byte streams.
pub mod Act
pub mod Words
pub mod Utf8
pub mod Io
pub mod Eq
pub mod HashMap

-- ===== src/Session/Crypto.antt =====
-- The cryptography that src/session.rs calls, as an interface, and a toy instance of it.
mod Assumed
pub mod Toy
pub use Assumed.*

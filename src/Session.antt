-- ===== src/Session.antt =====
-- src/session.rs: session keys, the session store, and the handshake.
pub mod Crypto
pub mod Cipher
pub mod Store
pub mod Handshake
pub mod Keys

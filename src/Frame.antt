-- ===== src/Frame.antt =====
-- src/frame.rs: length-prefixed frames, and the requests and responses inside them.
pub mod Wire
pub mod Body

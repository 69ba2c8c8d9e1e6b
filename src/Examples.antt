-- ===== src/Examples.antt =====
-- The sample programs under examples: their handlers, and what their clients make of the answers.
pub mod Commands
pub mod Notes
pub mod Chat
pub mod Weather

-- ===== src/Tests/Repository.antt =====
-- The unit tests of the repository, as definitions that the model runs.
mod Tlv
mod Frame
mod Session
mod Middleware

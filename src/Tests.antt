-- ===== src/Tests.antt =====
-- Runs of the theorems at concrete inputs.
mod Samples
mod TlvRuns
mod FrameRuns
mod SessionRuns
mod ServiceRuns
mod TcpRuns
mod CarrierRuns
mod GuardedRuns
mod Repository
mod ListenRuns
mod SystemRuns
mod ExampleRuns
mod NotesRuns

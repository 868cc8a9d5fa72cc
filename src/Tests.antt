-- ===== src/Tests.antt =====
-- Runs at concrete inputs: the theorems applied, and the definitions evaluated.
mod Protocol
mod Recorder
mod Loop
mod Texts
mod Arguments
mod Capsules
mod Reading
mod Tracing

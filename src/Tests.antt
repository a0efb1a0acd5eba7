-- ===== src/Tests.antt =====
-- Runs of the model at concrete inputs, and the theorems at inputs that meet their hypotheses.
mod Cache
mod Jobs
mod Guard
mod Pipeline
mod Budget
mod Formalizer
mod Outcome
mod ProofFile
mod Conversation
mod Telemetry
mod Verify
mod Diagnostics

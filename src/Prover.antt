-- ===== src/Prover.antt =====
-- src/agentic_prover.py: the agentic prover.
pub mod Errors
pub mod Tracker
pub mod Trace
pub mod Guard
pub mod Budget
pub mod Conversation

-- ===== src/Runner.antt =====
-- core/internal/runner: the execution of scripts, step by step.
pub mod Types
pub mod Host
pub mod Check
pub mod Steps
pub mod Gate
pub mod Outcome
pub mod Loop
pub mod Requires
pub mod Run
pub mod Returns
pub mod Confined
mod Reasoning
mod Trace
pub mod Terminate
pub mod Report
mod Once
pub mod RunFlow
mod Samples

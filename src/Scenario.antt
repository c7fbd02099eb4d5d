-- ===== src/Scenario.antt =====
-- core/internal/scenario: ordered groups of scripts, and suites of scripts and groups. What is
-- outside is that of the runner, with the loading and the parsing of files.
pub mod Types
pub mod Run
mod Report
mod Terminate
pub mod SuiteTypes
pub mod Suite
mod SuiteReport
mod Samples

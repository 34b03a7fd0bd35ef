-- ===== src/Scan.antt =====
-- The Modbus scan executor (src/core/modbus_scan_executor_core.h and .cpp): a plan's requests
-- sent one by one over a transport, with retries, cancellation and progress.
pub mod Types
pub mod Attempt
pub mod Execute
pub mod AttemptCases
pub mod AttemptLaws
pub mod Report
pub mod ExecuteLaws
pub mod Cancelled
pub mod Outcome
pub mod PlanTaken
pub mod Answered
pub mod Examples

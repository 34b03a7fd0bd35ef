-- ===== src/Sequence.antt =====
-- Command sequences: src/command_sequence/command_sequence.h and .cpp. A sequence of writes, delays,
-- waits, Modbus reads and assertions is validated against limits, then run step by step.
pub mod Types
pub mod Validate
pub mod Step
pub mod Run
pub mod Execute
pub mod Search
pub mod ValidateLaws
pub mod Budget
pub mod Runs
pub mod Delay
pub mod Reads
pub mod Examples

-- ===== src/Modbus.antt =====
-- src/core/modbus_core.h and .cpp: Modbus RTU frames, read requests, responses and scan plans.
pub mod Frame
pub mod Request
pub mod Response
pub mod FrameLaws
pub mod ResponseLaws
pub mod Reply
pub mod Wire
pub mod Accepted
pub mod RequestLaws
pub mod Plan
mod Examples

-- ===== src/Protocol.antt =====
-- Checksums of plain serial protocols: src/core/protocol_core.h and .cpp.
pub mod Checks
pub mod CheckLaws
pub mod Examples

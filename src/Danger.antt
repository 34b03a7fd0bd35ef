-- ===== src/Danger.antt =====
-- Which operations need a confirmation: src/core/dangerous_operation_policy.h and .cpp.
pub mod Policy
pub mod PolicyLaws
pub mod Examples

-- ===== src/Arb.antt =====
-- The arbitration runtime, arb/runtime/proceeding.
pub mod Complaint
pub mod Policy
pub mod Context
pub mod Certificate
pub mod Evidence
pub mod Failures
pub mod Council
pub mod Filings
pub mod Lawyer
pub mod Run

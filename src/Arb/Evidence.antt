-- ===== src/Arb/Evidence.antt =====
-- arb/runtime/proceeding/evidence.go: the registry of evidence, bounded reads, chunked uploads.
pub mod Registry
pub mod Immutable
pub mod Read
pub mod Budget
pub mod Names
pub mod Upload

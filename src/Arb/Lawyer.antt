-- ===== src/Arb/Lawyer.antt =====
-- arb/runtime/proceeding/lawyerapi.go: the turns of the attorneys, who file over the lawyer API.
pub mod Feedback
pub mod Turn
pub mod Decision
pub mod Server
pub mod Filed
pub mod Rejected
pub mod Kept
pub mod Reading
pub mod Session
pub mod Right
pub mod Certified

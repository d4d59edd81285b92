-- ===== src/Arb/Council.antt =====
-- arb/runtime/proceeding/councilapi.go: the turns of council members who vote over the council API.
pub mod Feedback
pub mod Pool
pub mod Preflight
pub mod Direct
pub mod Turn
pub mod Tools
pub mod Server
pub mod Run
pub mod Kept
pub mod Attempts
pub mod Votes
pub mod Session

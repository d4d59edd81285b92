-- ===== src/Common.antt =====
-- common/: what the arbitration programs share.
pub mod ModelRequest
pub mod Persona

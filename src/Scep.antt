-- ===== src/Scep.antt =====
-- services/scep/app: enrollment over SCEP.
pub mod Cms
pub mod Keys
pub mod Server
pub mod Envelope
pub mod Restart
pub mod Refusal

-- ===== src/Ca.antt =====
-- services/ca/app: the CA service.
pub mod Subjects
pub mod Policy
pub mod Session
pub mod Lifecycle
pub mod Issue
pub mod Status
pub mod Audited
pub mod Api
pub mod Validity
pub mod Expiry
pub mod History
pub mod Permitted
pub mod Gate
pub mod Revocation
pub mod Listed
pub mod Serials

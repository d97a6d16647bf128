-- ===== src/Est.antt =====
-- services/est/app: enrollment over EST.
pub mod Auth
pub mod Pkcs7
pub mod Server
pub mod Credentials
pub mod Admission

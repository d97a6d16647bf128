-- ===== src/Ra.antt =====
-- services/ra: the registration authority, which every enrolment passes before it reaches the CA. Its
-- client of the CA, its methods, its routes, and what a history of requests keeps.
pub mod Client
pub mod Service
pub mod Api
pub mod Keeps
pub mod Outcome
pub mod Committed
pub mod Approval
pub mod Names
pub mod Once
pub mod Approved
pub mod Http

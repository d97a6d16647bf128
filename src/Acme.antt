-- ===== src/Acme.antt =====
-- services/acme: the ACME server. Its tables and the session on them, its signed requests, its routes,
-- and what histories of requests keep.
pub mod Tables
pub mod Server
pub mod Jws
pub mod Accounts
pub mod Orders
pub mod Finalize
pub mod Api
pub mod Nonces
pub mod Replay
pub mod Rows
pub mod Issued
pub mod Gate
pub mod Kid
pub mod FromCa

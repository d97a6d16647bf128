-- ===== src/Scripts.antt =====
-- scripts: the set-up of the profiles.
pub mod Seed
pub mod Complete

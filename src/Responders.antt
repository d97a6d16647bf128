-- ===== src/Responders.antt =====
-- services/ocsp and services/crl: responders that ask the CA for signed answers and keep each for a
-- while. What the two share is the cache; what differs is the query, the key and the time to live.
pub mod Cache
pub mod Fresh
pub mod Routes

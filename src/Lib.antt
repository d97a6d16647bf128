-- ===== src/Lib.antt =====
-- PKICA: a certificate authority, a registration authority in front of it, and the responders and
-- protocol servers around them. Each service works on the tables of one database; the CA alone uses
-- the key store, the RA and the responders reach the CA through its routes, the protocol servers (ACME,
-- EST, SCEP) reach the RA through its routes, and the CA and the RA record what they do in an audit log
-- whose rows are chained by keyed hashes.
--
-- Files, and the code that each models (paths from the root of the repository):
-- - Audit, Audit/Chain, Audit/Tamper: common/pkicore/pkicore/audit.py (`record`, `verify_chain`).
-- - Models: common/pkicore/pkicore/db/models.py, the tables as lists of rows in insertion order.
-- - Asn1, Crypto and below: common/pkicore/pkicore/crypto.py, the values that it builds and signs.
-- - Kms: common/pkicore/pkicore/kms/base.py; Kms/Software and Kms/Custody: kms/software.py;
--   Kms/Factory and Kms/OptIn: kms/factory.py.
-- - Auth: common/pkicore/pkicore/auth.
-- - Platform: what the services call outside the repository, as one record, and the state `World` of a
--   session: tables, key store, and the number of calls of clock and random sources.
-- - Ca and below: services/ca/app. Lifecycle, Issue and Status hold the methods of `CAService`, Policy
--   the profile checks, Subjects the names, Api the routes (`handle`) with the session's commit or
--   rollback (`serve`) and histories of requests (`serve_all`). Audited, Validity, Expiry and History
--   are about what the methods and histories keep; Gate is about the routes' peers,
--   Permitted about the profile checks, Revocation and Listed about revoked certificates, Serials
--   about serial numbers.
-- - Ra and below: common/pkicore/pkicore/ca_client.py (Client) and services/ra/app (Service, Api). A
--   session has its tables and the CA behind it, an interface `CaClient`, which `ca_over_http` fills
--   with the routes of the CA. Http has the RA as the protocol servers see it, an interface
--   `RaClient`, which `ra_over_http` fills with the routes of the RA. Outcome, Committed, Names,
--   Once, Approval and Approved are proofs.
-- - Acme and below: services/acme/app and the ACME tables of models.py. Tables are the rows, Server the
--   state of a request (what is stored, the session's copy, the RA, the network) and the nonces, Jws
--   the signed requests, Accounts, Orders and Finalize the routes, Api their dispatch with a session
--   each. Nonces and Replay are about nonces, Rows, Issued and Gate about orders and authorizations,
--   Kid about addresses and padding, FromCa about the RA and the CA behind the server.
-- - Cms: the values of asn1crypto.cms; Enrollment: what EST and SCEP share.
-- - Est and below: services/est/app. Auth is `verify_basic_auth`, Pkcs7 is pkcs7.py, Server the routes;
--   Credentials and Admission are proofs.
-- - Scep and below: services/scep/app. Cms is cms.py, Keys the RA's key pair on disk, Server the routes;
--   Envelope, Restart and Refusal are proofs.
-- - Responders and below: services/ocsp/app/main.py and services/crl/app/main.py; their common cache.
-- - Scripts: scripts/seed-profiles.py (Seed), and what a run leaves behind (Complete).
-- - Json: the values of json.loads. Base, Text, Effect and below: shared names, Python's text
--   operations, exceptions as values, and the rules by which a block of calls keeps an invariant.
-- - Tests: concrete libraries and states, and the theorems at concrete inputs.
--
-- Conventions. A UUID is a number, an instant is a number of microseconds since the epoch (an
-- integer without bound; a sum outside the range of datetime is an OverflowError, as in Python), a
-- nullable column is an option. Sequences are not rolled back. Clock, UUIDs, tokens and random bytes
-- are answered by the number of the call, so that a theorem holds for every course of answers.
-- `cryptography`, `asn1crypto`, files, the key store, HMAC, JSON, base64 and python-jose are fields of
-- `Platform`, `AuditLib`, `SoftwareLib`, `AcmeLib`, `EnrollmentLib`, `CmsLib`, `CipherLib` and
-- `ScepLib`; hypotheses on them stand at the theorems that need them, each named for the documented
-- law. Text operations read text as ASCII or Latin-1. The digits of a number are written on fuel one
-- above the number, more than it has. The size in the name of an RSA key is read as a numeral without
-- sign or underscores.
--
-- Not modelled: transport (TLS, timeouts), DER and PEM themselves, the other backends of the key store,
-- tokens of OIDC, settings and logs, and the scripts that make certificates and authorities. A session
-- reads the tables as they were when it began: rows that other sessions commit meanwhile are not in it,
-- so that two requests of the ACME server do not overlap. The RA's session and the CA's have tables of
-- their own here, while the services share one database and one audit log: what the CA records during a
-- request of the RA is not in the RA's log, and nothing is stated of both services' rows together, which
-- fork (Audit/Tamper). A text is refused for its length only where the reason of a revocation is written
-- (serial numbers are below 2 ^ 152, and their columns take 64 digits). `created_at` is left out, and the order by it
-- is that of insertion.
pub mod Base
pub mod Text
pub mod Effect
pub mod Audit
pub mod Models
pub mod Asn1
pub mod Kms
pub mod Platform
pub mod Crypto
pub mod Ca
pub mod Auth
pub mod Ra
pub mod Json
pub mod Responders
pub mod Scripts
pub mod Acme
pub mod Cms
pub mod Enrollment
pub mod Est
pub mod Scep
pub mod Tests

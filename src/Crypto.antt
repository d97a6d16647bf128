-- ===== src/Crypto.antt =====
-- common/pkicore/pkicore/crypto.py: X.509 values are built here, and signed by the key store.
mod Names
pub mod Keeps
mod Extensions
mod Certificates
mod Responses
unfoldable pub use Names.*
unfoldable pub use Extensions.*
unfoldable pub use Certificates.*
unfoldable pub use Responses.*

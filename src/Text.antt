-- ===== src/Text.antt =====
-- Python's methods on `str` that the services use, by clauses on the text.
mod Split
pub mod Join
pub mod Hex
mod Case
mod Trim
pub mod Infix
pub mod HexBytes
pub mod Segments
unfoldable pub use Case.*
unfoldable pub use Split.*
unfoldable pub use Trim.*

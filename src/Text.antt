-- ===== src/Text.antt =====
-- Rust's `str` as the list of its code points, with the methods of `std` that the program calls.
mod Defs
mod Split
mod Decimal
mod Bytes
mod Words
mod Paths
mod Lines
mod Fresh
mod Joined
mod Patterns
unfoldable pub use Defs.*
pub use Split.*
unfoldable pub use Decimal.*
unfoldable pub use Bytes.*
unfoldable pub use Words.*
unfoldable pub use Paths.*
unfoldable pub use Lines.*
unfoldable pub use Patterns.*
unfoldable pub use Joined.*
unfoldable pub use Fresh.*

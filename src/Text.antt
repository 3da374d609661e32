-- ===== src/Text.antt =====
-- The functions of Go's `strings` and `net` packages that the program calls, over code points.
mod Split
mod Lower
mod HostPort
mod Wildcard
mod JoinSplit
mod ParseUint
mod Decimal
mod Join
unfoldable pub use Split.*
unfoldable pub use Lower.*
unfoldable pub use HostPort.*
unfoldable pub use Wildcard.*
unfoldable pub use JoinSplit.*
unfoldable pub use ParseUint.*
unfoldable pub use Decimal.*
unfoldable pub use Join.*

-- ===== src/Common/Strings.antt =====
-- Go strings as lists of code points, with the functions of the `strings` and `strconv` packages
-- that the source calls.
mod Trim
mod Equality
unfoldable pub use Trim.*
unfoldable pub use Equality.*

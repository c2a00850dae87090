-- ===== src/Strconv.antt =====
-- The calls of Go's strconv that the programs make: decimal integers of 64 bits.
-- `none` is the error of `ParseInt` and `Atoi`, a syntax error or a value out of range.
pub mod Decimal
unfoldable pub use Decimal.*
pub mod RoundTrip

-- ===== src/Float.antt =====
-- float64, as Go defines it, is a parameter: a type with the operations that the sources use.
-- `decimal m k` is the float nearest to m / 10^k (a literal, or a conversion from an integer).
mod Defs
pub mod Laws
pub mod Order
pub mod Extrema
pub mod Fixed
pub use Defs.*

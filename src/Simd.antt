-- ===== src/Simd.antt =====
-- src/simd.h and src/simd.cc: an engine's output, which writes a line for each finished feature.
mod Defs
pub mod Addresses
pub mod Totals
pub mod Start
unfoldable pub use Defs.*

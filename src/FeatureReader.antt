-- ===== src/FeatureReader.antt =====
-- src/f_reader.h and src/f_reader.cc: the reader of the features that the edges ask for.
mod Defs
mod Reading
mod Passing
pub mod Sends
pub mod Requested
pub mod Progress
unfoldable pub use Defs.*
unfoldable pub use Reading.*
unfoldable pub use Passing.*

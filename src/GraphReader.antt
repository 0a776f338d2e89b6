-- ===== src/GraphReader.antt =====
-- src/g_reader.h and src/g_reader.cc: an engine's reader of its share of the graph.
mod Defs
mod Receiving
mod Passing
pub mod Cursor
pub mod Requests
pub mod Receive
pub mod Rows
pub mod Edges
pub mod Pass
pub mod Share
pub mod Run
unfoldable pub use Defs.*
unfoldable pub use Receiving.*
unfoldable pub use Passing.*

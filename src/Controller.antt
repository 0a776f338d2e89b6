-- ===== src/Controller.antt =====
-- src/controller.h and src/controller.cc: the cycle that drives the engines and the memory.
mod Defs
pub mod Loop
unfoldable pub use Defs.*

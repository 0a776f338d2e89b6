-- ===== src/Memory.antt =====
-- src/memory.h and src/memory.cc: the queues between the engines and the memory simulator.
-- DRAMsim3 is outside the model: it is the parameter `Dram`. The globals `total_write`, `tq_get`,
-- `xw_get` and `cycle`, which this part writes, are fields beside the members of the class.
mod Defs
pub mod Consume
pub mod Routing
pub mod Accounting
unfoldable pub use Defs.*

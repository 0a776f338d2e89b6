-- ===== src/Preprocessor.antt =====
-- src/preprocessor.h and src/preprocessor.cc: what is computed before the simulation starts.
pub mod Csr
pub mod Lac
pub mod AddressMapping
pub mod TransXw
pub mod Tiling
pub mod Load
pub mod Split

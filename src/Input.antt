-- ===== src/Input.antt =====
-- What the program reads: its options, its configuration and its files (src/main.cc and the first
-- part of src/preprocessor.cc). A text is the list of its characters' codes.
pub mod Result
pub mod Number
pub mod Lines
pub mod Table
pub mod Settings
pub mod Config
pub mod Files
pub mod Options
pub mod Program

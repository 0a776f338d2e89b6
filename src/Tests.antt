-- ===== src/Tests.antt =====
-- The theorems at concrete inputs.
mod Example
mod Graph
mod Preparation
mod Caching
mod Memories
mod Features
mod Whole
mod Cycling
mod Words
mod Reading
mod Options
mod Building
mod Mapping
mod Running

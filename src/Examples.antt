-- ===== src/Examples.antt =====
-- The theorems at concrete inputs, and runs of the model.
pub mod Fixture
mod Table
mod Filter
pub mod Index
mod Pool
mod Tree
mod Both

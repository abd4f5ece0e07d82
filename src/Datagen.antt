-- ===== src/Datagen.antt =====
-- datagen/generator.go: the test data, and what it consists of.
pub mod Random
pub mod Shuffle
pub mod Generator
pub mod Permuted
pub mod Drawn
pub mod Made
pub mod Generated

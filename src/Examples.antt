-- ===== src/Examples.antt =====
-- Tests of the model on concrete inputs, and the theorems at such inputs.
mod Samples
mod Parts
mod Choices
mod Aggregates
mod Stores
mod Retries
mod Requests
mod Services
mod Answers
mod Overlaps
mod Concurrency

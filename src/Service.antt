-- ===== src/Service.antt =====
-- The service as a whole (internal/orchestrator/orchestrator.go behind internal/api/handler.go): what
-- holds between two requests.
pub mod Sound
pub mod Counted
pub mod Failures
pub mod Orderly
pub mod Endpoints
pub mod Reach
pub mod Totals
pub mod Resets
pub mod Taking
pub mod Loading
pub mod Submit
pub mod Tally
pub mod Batches
pub mod Lookups
pub mod Listings
pub mod Reports
pub mod Races
pub mod Ranges
pub mod Processors
pub mod Answers

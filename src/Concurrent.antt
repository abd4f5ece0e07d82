-- ===== src/Concurrent.antt =====
-- Requests that are served at the same time (internal/api/handler.go over
-- internal/orchestrator/orchestrator.go): each call of a method of the tracker, of the store, of the
-- adaptive data, of the clock and of the random source is one step, and steps of different requests
-- interleave.
pub mod Calls
pub mod Orchestrated
pub mod Handled
pub mod Lasting
pub mod Keeping
pub mod Retried
pub mod Told
pub mod Kept
pub mod Replies
pub mod Running
pub mod Bounded
pub mod Planned
pub mod Rounds
pub mod Answered
pub mod Accepted

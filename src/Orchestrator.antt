-- ===== src/Orchestrator.antt =====
-- internal/orchestrator/orchestrator.go: the retry orchestrator over the classifier, the health
-- tracker and the store.
pub mod State
pub mod Adaptive
pub mod Select
pub mod Reasoning
pub mod Plan
pub mod Quiet
pub mod Retry
pub mod Process

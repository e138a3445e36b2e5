-- ===== src/Pipeline.antt =====
-- internal/pipeline: from a work item to a row in the sink.
pub mod Identity
pub mod HashCache
pub mod Coalesce
pub mod Diff
pub mod Redact
pub mod Normalize
pub mod Process
pub mod Change
pub mod Upsert
pub mod WorkItem
pub mod Warm
pub mod Sweep
pub mod Coordinator

-- ===== src/Watch.antt =====
-- internal/watch: which informers run, which interests they serve, and the log of watch scopes.
pub mod ScopeRecorder
pub mod EventFilter
pub mod Interest
pub mod InterestTable
pub mod Manager

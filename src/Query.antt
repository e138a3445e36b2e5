-- ===== src/Query.antt =====
-- internal/query: what the read plane computes from recorded rows.
pub mod Scope
pub mod Replay
pub mod Layout

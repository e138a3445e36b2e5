-- ===== src/Plan.antt =====
-- internal/plan: the desired state, between the reconcilers and the watch manager.
pub mod Registry

-- ===== src/Examples.antt =====
-- The theorems at concrete inputs.
mod Caches
mod Coalescing
mod Registries
mod Scopes
mod Replays
mod Histories
mod Redactions
mod Items
mod Filters
mod Warming
mod Archives
mod Interests

-- ===== src/KeyPool.antt =====
-- internal/proxy/keypool.go: the pool of API keys of one target.
pub mod ResetTime
pub mod State
pub mod Load
pub mod Balance
pub mod Binding
pub mod Select
pub mod Mark
pub mod Report
pub mod Least
pub mod Invariant
pub mod Keeping
pub mod History
mod Examples

-- ===== src/Quota.antt =====
-- internal/quota: the account-level USD quotas.
pub mod Period
pub mod Money
pub mod Manager
mod Examples

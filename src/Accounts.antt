-- ===== src/Accounts.antt =====
-- The package internal/accounts: its records, quota windows, rotation and service.
pub mod Types
pub mod Clone
pub mod Quota
pub mod Rotation
pub mod Token
pub mod Store
pub mod Service
pub mod Edit
pub mod Acquire
pub mod System
pub mod Effects
pub mod Rest
pub mod Samples
pub mod Tests
pub mod RuleTests

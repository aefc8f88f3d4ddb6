-- ===== src/Models.antt =====
-- internal/models: which models exist and which account supports which.
pub mod Entry
pub mod Catalog
pub mod Normalize
pub mod Tests

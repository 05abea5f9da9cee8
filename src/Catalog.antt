-- ===== src/Catalog.antt =====
-- The catalog of server/internal/services, and the secrets that it keeps.
pub mod Secrets
pub mod Service
pub mod Enrollment
pub mod Vault

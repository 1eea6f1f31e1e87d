-- ===== src/Api.antt =====
-- The custom resources (api/backup/v1alpha1).
pub mod Backup
pub mod Repository
